-- ===== src/Syscalls/Simple.antt =====
-- sys_sleep, sys_getpid, sys_gettime and sys_getprio of kernel/syscalls.c. The warning that sys_sleep
-- prints is left out.
use os_team.Base.{
  ℕ, ◌-◌, ◌^◌, not, ◌&&◌, ◌||◌, ◌==◌, if◌then◌else◌, add32, Cmd, pure, get, assert, ◌>>=◌, ◌>>◌,
}
use os_team.Base.Chain.{null}
use os_team.Queues.State.{Status, success}
use os_team.Procs.State.{PcbPtr, is_unused, que_insert}
use os_team.Procs.State
use os_team.Procs.Table.{pcb_find_pid}
use os_team.Procs.Sched.{schedule, dispatch}
use os_team.Machine.{Machine, in_os, arg, set_ret}

-- A negative result, -(n + 1), in the 32 bits of a register.
abbrev pub minus : (n : ℕ) → ℕ
minus n = 2 ^ 32 - n

abbrev pub s_error : ℕ
s_error = minus 1

abbrev pub s_not_found : ℕ
s_not_found = minus 2

abbrev pub s_bad_syscall : ℕ
s_bad_syscall = minus 3

abbrev pub s_no_child : ℕ
s_no_child = minus 4

abbrev pub s_bad_chan : ℕ
s_bad_chan = minus 5

-- The end of `sys_sleep`: a failed insertion is only reported.
abbrev pub go_on : Status → Cmd State.Os (Unit {0})
go_on success = dispatch
go_on _ = pure tt

-- The part of `sys_sleep` for a sleep of some length, up to a wakeup time.
unfoldable pub sleep_until : PcbPtr → (wakeup : ℕ) → Cmd State.Os (Unit {0})
sleep_until pcb wakeup = do
  p ← State.load pcb
  State.store pcb (record p { state = State.State.sleeping; wakeup = wakeup })
  s ← get
  st ← que_insert s.sleeping pcb
  go_on st

-- `sys_sleep`
unfoldable pub sys_sleep : PcbPtr → Cmd Machine (Unit {0})
sys_sleep pcb = do
  assert (not (pcb == null))
  n ← arg pcb 1
  m ← get
  if n == 0
      then in_os (schedule pcb >> dispatch)
      else in_os (sleep_until pcb (add32 m.clk.system_time n))

-- `sys_getpid`
unfoldable pub sys_getpid : PcbPtr → Cmd Machine (Unit {0})
sys_getpid pcb = do assert (not (pcb == null)); p ← in_os (State.load pcb); set_ret pcb p.pid

-- `sys_gettime`
unfoldable pub sys_gettime : PcbPtr → Cmd Machine (Unit {0})
sys_gettime pcb = do assert (not (pcb == null)); m ← get; set_ret pcb m.clk.system_time

-- `sys_getprio`; the test after the search is of the caller.
unfoldable pub sys_getprio : PcbPtr → Cmd Machine (Unit {0})
sys_getprio pcb = do
  assert (not (pcb == null))
  pid ← arg pcb 1
  caller ← in_os (State.load pcb)
  if pid == 0 || (pid == caller.pid) then set_ret pcb caller.priority else (do
    p ← in_os (pcb_find_pid pid)
    if not (pcb == null) && not (is_unused caller.state)
        then (in_os (State.load p) >>= λ found. set_ret pcb found.priority)
        else set_ret pcb s_not_found)
