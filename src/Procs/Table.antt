-- ===== src/Procs/Table.antt =====
-- The process table of kernel/procs.c.
pub mod Scan
pub mod Cleanup
use os_team.Base.{
  ℕ, suc, ◌+◌, ◌^◌, Bool, true, false, not, ◌&&◌, ltb, leb, ◌==◌, if◌then◌else◌, Option, none, some,
  List, [], ◌∷◌, replicate, Cmd, pure, get, put, assert, ◌>>=◌, ◌>>◌,
}
use os_team.Base.Chain.{null}
use os_team.Queues.State.{QueuePtr, Status, success, no_pcbs}
use os_team.Queues.Table
use os_team.Stacks
use os_team.Procs.State.{
  Pcb, PcbPtr, clear_pcb, Os, State, is_unused, n_procs, first_user_pid, load, store, in_que,
  in_stk, que_insert, comp_wakeup_ptr,
}

-- A scan of the table for the first entry that passes the test, from `&ptable[i]` on.
unfoldable pub scan : (PcbPtr → Pcb → Bool) → ℕ → List Pcb → Option PcbPtr
scan test i [] = none
scan test i (p ∷ ps) = if test (suc i) p then some (suc i) else scan test (i + 1) ps

-- `pcb_alloc`; the pointer, if any, is what is stored through the parameter.
unfoldable pub pcb_alloc : Cmd Os (Status × Option PcbPtr)
pcb_alloc = do
  s ← get
  elim (scan (λ _ p. is_unused p.state) 0 s.ptable) [
    | none ↦ pure (no_pcbs, none)
    | some p ↦ pure (success, some p)
  ]

-- `pcb_free`
unfoldable pub pcb_free : PcbPtr → Cmd Os (Unit {0})
pcb_free pcb = do
  assert (not (pcb == null))
  p ← load pcb
  store pcb (record p { state = State.unused })

-- `pid >= FIRST_USER_PID` on an `int32_t`, which is kept as its bit pattern.
abbrev pub is_user_pid : ℕ → Bool
is_user_pid pid = leb first_user_pid pid && ltb pid (2 ^ 31)

-- `pcb_find_pid`; NULL if there is none.
unfoldable pub pcb_find_pid : ℕ → Cmd Os PcbPtr
pcb_find_pid pid = do
  assert (is_user_pid pid)
  s ← get
  elim (scan (λ _ p. p.pid == pid && not (is_unused p.state)) 0 s.ptable) [
    | none ↦ pure null
    | some p ↦ pure p
  ]

abbrev pub is_child : PcbPtr → PcbPtr → Pcb → Bool
is_child parent ptr p = not (ptr == parent) && (p.parent == parent) && not (is_unused p.state)

-- `pcb_find_child_of`
unfoldable pub pcb_find_child_of : PcbPtr → Cmd Os PcbPtr
pcb_find_child_of parent = do
  assert (leb 1 parent && leb parent n_procs)
  s ← get
  elim (scan (is_child parent) 0 s.ptable) [ none ↦ pure null | some p ↦ pure p ]

abbrev pub is_success : Status → Bool
is_success success = true
is_success _ = false

-- `pcb_zombify`
unfoldable pub pcb_zombify : PcbPtr → Cmd Os (Unit {0})
pcb_zombify pcb = if pcb == null then pure tt else do
  p ← load pcb
  store pcb (record p { state = State.zombie })
  s ← get
  st ← que_insert s.zombie pcb
  assert (is_success st)

-- The stack of a process, given back if it has one.
unfoldable pub free_stack : PcbPtr → Pcb → Cmd Os (Unit {0})
free_stack pcb p =
    if p.stack == null
    then pure tt
    else do in_stk (Stacks.free p.stack); store pcb (record p { stack = null })

-- `pcb_cleanup`
unfoldable pub pcb_cleanup : PcbPtr → Cmd Os (Unit {0})
unfolding free_stack
pcb_cleanup pcb = if pcb == null then pure tt else do p ← load pcb; free_stack pcb p; pcb_free pcb

-- `assert( (handle = que_alloc(compare)) != NULL )`
new_queue : ℕ → Cmd Os QueuePtr
new_queue compare = do q ← in_que (Table.alloc compare); assert (not (q == null)); pure q

-- `pcb_init`
unfoldable pub pcb_init : Cmd Os (Unit {0})
unfolding new_queue
pcb_init = do
  high ← new_queue null
  std ← new_queue null
  low ← new_queue null
  sleep ← new_queue comp_wakeup_ptr
  zom ← new_queue null
  blk ← new_queue null
  sio ← new_queue null
  s ← get
  put (record s {
    ptable = replicate n_procs clear_pcb;
    ready = high ∷ std ∷ low ∷ [];
    sleeping = sleep;
    zombie = zom;
    blocked = blk;
    sioread = sio;
    current = null;
    init_pcb = null;
    next_pid = first_user_pid;
  })
