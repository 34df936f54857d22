-- ===== src/Syscalls/Transfer.antt =====
-- sys_read and sys_write of kernel/syscalls.c.
use os_team.Base.{
  ℕ, ◌-◌, ◌^◌, Bool, true, false, not, ltb, ◌==◌, if◌then◌else◌, List, [], ◌∷◌, ◌++◌, length, Cmd,
  pure, get, put, assert, ◌>>=◌, ◌>>◌,
}
use os_team.Base.Chain.{Ptr, null}
use os_team.Queues.State.{Status, success}
use os_team.Procs.State.{PcbPtr, que_insert}
use os_team.Procs.State
use os_team.Procs.Sched.{dispatch}
use os_team.Sio
use os_team.Console
use os_team.Console.Keyboard.{input_queue, gets}
use os_team.Machine.{Machine, in_os, in_cio, in_sio, arg, set_ret, store_bytes, set_state}
use os_team.Syscalls.Simple.{s_bad_chan}

abbrev pub chan_cio : ℕ
chan_cio = 0

abbrev pub chan_sio : ℕ
chan_sio = 1

-- A `uint32_t` as an `int` length: a negative one acts as 0.
abbrev pub int_length : ℕ → ℕ
int_length n = if ltb n (2 ^ 31) then n else 0

-- Characters are stored in the memory of the process.
abbrev pub store_at : Ptr → List ℕ → Cmd Machine (Unit {0})
store_at buf chars m = put (record m { mem = store_bytes buf chars m.mem }) m

-- `cio_gets` into a buffer in the memory of the process; the result is the count.
unfoldable pub gets_at : Ptr → (size : ℕ) → Cmd Machine ℕ
gets_at buf size = do
  m ← get
  (chars, keys) ← in_cio (gets (size - 1) m.keys)
  m' ← get
  put (record m' { keys = keys })
  store_at buf (chars ++ 0 ∷ [])
  pure (length chars)

abbrev is_success : Status → Bool
is_success success = true
is_success _ = false

-- Nothing was available, so the process is blocked.
unfoldable pub block_reader : PcbPtr → Cmd Machine (Unit {0})
block_reader pcb = do
  set_state pcb State.State.blocked
  m ← get
  st ← in_os (que_insert m.clk.os.sioread pcb)
  assert (not (is_success st))
  in_os dispatch

-- `sys_read`
unfoldable pub sys_read : PcbPtr → Cmd Machine (Unit {0})
sys_read pcb = do
  assert (not (pcb == null))
  chan ← arg pcb 1
  len ← arg pcb 3
  buf ← arg pcb 2
  if len == 0
      then set_ret pcb 0
      else if chan == chan_cio
      then (do
        waiting ← in_cio input_queue
        if ltb waiting 1 then set_ret pcb 0 else (gets_at buf len >>= λ n. set_ret pcb n))
      else if chan == chan_sio
      then (do
        chars ← in_sio (Sio.read (int_length len))
        if ltb (length chars) 1
            then block_reader pcb
            else (store_at buf chars >> set_ret pcb (length chars)))
      else set_ret pcb s_bad_chan

-- `sys_write`; the test of the length, which is unsigned, always holds.
unfoldable pub sys_write : PcbPtr → Cmd Machine (Unit {0})
sys_write pcb = do
  assert (not (pcb == null))
  chan ← arg pcb 1
  len ← arg pcb 3
  buf ← arg pcb 2
  m ← get
  if chan == chan_cio
      then (in_cio (Console.write m.mem buf (int_length len)) >> set_ret pcb len)
      else if chan == chan_sio
      then (in_sio (Sio.write m.mem buf (int_length len)) >>= λ _. set_ret pcb len)
      else set_ret pcb s_bad_chan
