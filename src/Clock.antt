-- ===== src/Clock.antt =====
-- kernel/clock.c, the clock interrupt. Console output, the status report of SYSTEM_STATUS and the
-- programming of the timer chip are left out.
pub mod Wake
pub mod Front
pub mod Loop
pub mod Table
pub mod Entries
pub mod Tick
pub mod Running
pub mod Switch
pub mod Turn
pub mod Interrupt
pub mod Sleepers
use os_team.Base.{
  ℕ, zero, suc, ◌+◌, ◌-◌, ◌%◌, ◌^◌, Bool, true, false, not, ltb, ◌==◌, if◌then◌else◌, add32, Option,
  none, some, Cmd, pure, get, put, assert, halt, out_of_fuel, embed, ◌>>=◌, ◌>>◌, get_elem?,
}
use os_team.Base.Chain.{null}
use os_team.Queues.State.{Que, Queue, QueuePtr, Status, success, empty, load as load_queue}
use os_team.Queues.Ops
use os_team.Procs.State.{Pcb, PcbPtr, Os, State, load, store, in_que, local}
use os_team.Procs.Sched.{schedule, dispatch, stored_or}

-- The globals of the module, beside the state of the modules that it calls.
pub record Clk : Type 0 where
  pub os : Os
  pub system_time : ℕ
  pub pinwheel : ℕ
  pub pindex : ℕ

-- `CLOCK_FREQ / 10`
abbrev pub pinwheel_limit : ℕ
pinwheel_limit = 100

abbrev pub in_os : Cmd Os (Unit {0}) → Cmd Clk (Unit {0})
in_os m c = embed (λ t s. record t { os = s }) c (m c.os)

-- The first statements: the pinwheel, whose counter is an `int` that starts at -1.
unfoldable pub spin : Clk → Clk
spin c =
    let next = add32 c.pinwheel 1 in
    if next == pinwheel_limit
    then record c { pinwheel = 0; pindex = add32 c.pindex 1 }
    else record c { pinwheel = next }

abbrev is_success : Status → Bool
is_success success = true
is_success _ = false

-- A process at the head of the sleep queue whose time has come leaves it and is scheduled.
unfoldable pub awaken : QueuePtr → PcbPtr → Cmd Os (Unit {0})
awaken sleeping pcb = do
  (st, out) ← in_que (Ops.remove sleeping local)
  assert (is_success st)
  schedule (stored_or out pcb)

-- The loop that wakes the sleepers, with the rounds left.
unfoldable pub wake : ℕ → (time : ℕ) → Cmd Os (Unit {0})
wake zero time = halt out_of_fuel
wake (suc rounds) time = do
  s ← get
  (st, out) ← in_que (Ops.peek s.sleeping local)
  elim st [
    | empty ↦ pure tt
    | _ ↦ do
      let pcb = stored_or out null
      assert (not (pcb == null))
      p ← load pcb
      if ltb time p.wakeup then pure tt else do awaken s.sleeping pcb; wake rounds time
  ]

-- Each round takes an entry out of the sleep queue: its length and one round more are enough.
unfoldable pub wake_all : (time : ℕ) → Cmd Os (Unit {0})
wake_all time = do s ← get; q ← in_que (load_queue s.sleeping); wake (q.count + 1) time

-- The process has used a tick of its quantum, a `uint8_t`.
unfoldable pub spend : PcbPtr → Cmd Os (Unit {0})
spend pcb = do
  p ← load pcb
  let left = (p.quantum + 255) % 256
  store pcb (record p { quantum = left })
  if ltb left 1 then schedule pcb >> dispatch else pure tt

-- The end of the interrupt, on the current process.
unfoldable pub use_tick : Cmd Os (Unit {0})
use_tick = do s ← get; spend s.current

advance : Cmd Clk ℕ
advance c = pure (add32 c.system_time 1) (record (spin c) { system_time = add32 c.system_time 1 })

-- `clk_isr`
unfoldable pub clk_isr : Cmd Clk (Unit {0})
unfolding advance
clk_isr = do time ← advance; in_os (wake_all time); in_os use_tick

-- `clk_init`
unfoldable pub clk_init : Cmd Clk (Unit {0})
clk_init c = put (record c { pinwheel = 2 ^ 32 - 1; pindex = 0; system_time = 0 }) c
