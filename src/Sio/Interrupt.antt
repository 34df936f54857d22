-- ===== src/Sio/Interrupt.antt =====
-- sio_isr of kernel/sio.c, the serial interrupt. Its messages, and the end of the interrupt for the
-- interrupt controller, are left out.
use os_team.Base.{
  ℕ, ◌%◌, Bool, true, false, not, ltb, ◌==◌, if◌then◌else◌, List, [], ◌∷◌, Cmd, pure, get, put,
  halt, panic, assert, ◌>>=◌, ◌>>◌,
}
use os_team.Base.Chain.{null, update}
use os_team.Queues.State.{Status, success}
use os_team.Queues.Ops
use os_team.Queues.Table
use os_team.Procs.State.{in_que, local}
use os_team.Procs.Sched.{schedule, stored_or}
use os_team.Sio.{store_in, transmit, newline, return_char}
use os_team.Machine.{Machine, in_os, in_sio, arg, set_ret}

-- What the UART reports when it is asked for the pending event, with the character that it has received.
-- The handler returns when it reports none.
pub data Event : Type 0 where
  line_status : Event
  rx : (ch : ℕ) → Event
  rx_fifo : (ch : ℕ) → Event
  tx : Event
  modem_status : Event
  unknown : Event

abbrev is_success : Status → Bool
is_success success = true
is_success _ = false

-- CR is mapped to LF.
abbrev pub line_feed : ℕ → ℕ
line_feed ch = if ch == return_char then newline else ch

-- A process that waits for input gets the character.
unfoldable pub give : (ch : ℕ) → Cmd Machine (Unit {0})
give ch = do
  m ← get
  (st, out) ← in_os (in_que (Ops.remove m.clk.os.sioread local))
  assert (is_success st)
  let pcb = stored_or out null
  assert (not (pcb == null))
  buf ← arg pcb 2
  len ← arg pcb 3
  m' ← get
  if ltb 0 len
      then (do put (record m' { mem = update m'.mem buf (ch % 256) }); set_ret pcb 1)
      else set_ret pcb 0
  in_os (schedule pcb)

-- The `UA4_IIR_RX` case.
unfoldable pub receive : (ch : ℕ) → Cmd Machine (Unit {0})
receive ch = do
  m ← get
  waiting ← in_os (in_que (Table.length m.clk.os.sioread))
  if ltb waiting 1 then in_sio (store_in (line_feed ch)) else give (line_feed ch)

unfoldable pub handle : Event → Cmd Machine (Unit {0})
handle (Event.rx ch) = receive ch
handle Event.tx = in_sio transmit
handle Event.unknown = halt panic
handle _ = pure tt

-- `sio_isr`, with the events that are pending.
unfoldable pub sio_isr : List Event → Cmd Machine (Unit {0})
sio_isr [] = pure tt
sio_isr (e ∷ es) = handle e >> sio_isr es
