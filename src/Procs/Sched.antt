-- ===== src/Procs/Sched.antt =====
-- The scheduler of kernel/procs.c.
pub mod Ready
pub mod Dispatch
use os_team.Base.{
  ℕ, zero, suc, ◌+◌, ◌-◌, Bool, true, false, not, ◌&&◌, ltb, leb, ◌==◌, if◌then◌else◌, Option, none,
  some, List, [], ◌∷◌, get_elem?, Cmd, pure, get, put, assert, halt, panic, fault, ◌>>=◌, ◌>>◌,
}
use os_team.Base.Chain.{null}
use os_team.Queues.State.{Que, QueuePtr, Status, success}
use os_team.Queues.Ops
use os_team.Procs.State.{
  Pcb, PcbPtr, Os, State, n_prios, q_std, pcb_ix, load, store, in_que, que_insert, local,
}

-- `ready[i]`
unfoldable pub ready_queue : ℕ → Cmd Os QueuePtr
ready_queue i s = elim (get_elem? s.ready i) [ none ↦ halt fault s | some q ↦ pure q s ]

abbrev in_table : PcbPtr → Bool
in_table p = elim (pcb_ix p) [ none ↦ false | some _ ↦ true ]

-- `schedule`
unfoldable pub schedule : PcbPtr → Cmd Os (Unit {0})
schedule p = do
  assert (in_table p)
  pcb ← load p
  assert (ltb pcb.priority n_prios)
  q ← ready_queue pcb.priority
  st ← que_insert q p
  elim st [ success ↦ store p (record pcb { state = State.ready }) | _ ↦ halt panic ]

-- A variable after a call that may store through its address.
abbrev pub stored_or : Option PcbPtr → PcbPtr → PcbPtr
stored_or none p = p
stored_or (some p') p = p'

-- The loop of `dispatch` over the ready queues, with the rounds left: the first process found.
unfoldable pub next_ready : (rounds i : ℕ) → Cmd Os PcbPtr
next_ready zero i = pure null
next_ready (suc rounds) i = do
  q ← ready_queue i
  (st, out) ← in_que (Ops.remove q local)
  elim st [ success ↦ pure (stored_or out null) | _ ↦ next_ready rounds (i + 1) ]

-- `dispatch`
unfoldable pub dispatch : Cmd Os (Unit {0})
dispatch = do
  p ← next_ready n_prios 0
  assert (not (p == null))
  pcb ← load p
  store p (record pcb { state = State.running; quantum = q_std })
  s ← get
  put (record s { current = p })
