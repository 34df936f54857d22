-- ===== src/Syscalls/Exit.antt =====
-- sys_exit and sys_wait of kernel/syscalls.c.
use os_team.Base.{
  ℕ, zero, suc, ◌+◌, Bool, true, false, not, ltb, ◌==◌, if◌then◌else◌, List, [], ◌∷◌, Cmd, pure,
  get, put, halt, out_of_fuel, assert, ◌>>=◌, ◌>>◌,
}
use os_team.Base.Chain.{null}
use os_team.Queues.State.{Status, success}
use os_team.Queues.Ops
use os_team.Procs.State.{Os, Pcb, PcbPtr, State, is_unused, n_procs, load, store, in_que}
use os_team.Procs.Table.{is_child, pcb_find_child_of, pcb_zombify, pcb_cleanup}
use os_team.Procs.Sched.{schedule, dispatch}
use os_team.Text.Words.{store_word}
use os_team.Machine.{Machine, in_os, arg, set_ret, set_state}
use os_team.Syscalls.Simple.{s_no_child}

-- `status_return`
unfoldable pub status_return : (parent child : PcbPtr) → Cmd Machine (Unit {0})
status_return parent child = do
  assert (not (parent == null))
  assert (not (child == null))
  c ← in_os (load child)
  set_ret parent c.pid
  ptr ← arg parent 1
  m ← get
  if ptr == null then pure tt else put (record m { mem = store_word ptr c.status m.mem })

abbrev pub is_zombie : State → Bool
is_zombie State.zombie = true
is_zombie _ = false

abbrev pub is_waiting : State → Bool
is_waiting State.waiting = true
is_waiting _ = false

-- The loop that gives the children to init, with the rounds left; the result is the last child found
-- that has exited, `for_init` before the loop.
unfoldable pub reparent : ℕ → PcbPtr → (for_init : PcbPtr) → Cmd Os PcbPtr
reparent zero pcb for_init = halt out_of_fuel
reparent (suc rounds) pcb for_init = do
  next ← pcb_find_child_of pcb
  if next == null then pure for_init else do
    p ← load next
    assert (p.parent == pcb)
    s ← get
    store next (record p { parent = s.init_pcb })
    reparent rounds pcb (if is_zombie p.state then next else for_init)

-- Each round takes a child away, and the table has no more children than entries.
abbrev pub reparent_rounds : ℕ
reparent_rounds = n_procs + 1

abbrev is_success : Status → Bool
is_success success = true
is_success _ = false

-- The wakeup of init for a child that had exited.
unfoldable pub reap_for_init : PcbPtr → Cmd Machine (Unit {0})
reap_for_init for_init = do
  m ← get
  if for_init == null then pure tt else do
    init ← in_os (load m.clk.os.init_pcb)
    if is_waiting init.state
        then (do
          st ← in_os (in_que (Ops.remove_by m.clk.os.zombie for_init))
          assert (is_success st)
          status_return m.clk.os.init_pcb for_init
          in_os (schedule m.clk.os.init_pcb)
          in_os (pcb_cleanup for_init))
        else pure tt

-- The end of the process: a parent that waits is woken, and else the process becomes a zombie.
unfoldable pub leave : (parent pcb : PcbPtr) → Cmd Machine (Unit {0})
leave parent pcb = do
  q ← in_os (load parent)
  if is_waiting q.state
      then (do status_return parent pcb; in_os (schedule parent); in_os (pcb_cleanup pcb))
      else in_os (pcb_zombify pcb)

-- `sys_exit` of a process with this parent.
unfoldable pub exit_to : (parent pcb : PcbPtr) → Pcb → Cmd Machine (Unit {0})
exit_to parent pcb p = do
  assert (not (parent == null))
  q ← in_os (load parent)
  assert (not (is_unused q.state))
  assert (not (parent == pcb))
  status ← arg pcb 1
  in_os (store pcb (record p { status = status }))
  for_init ← in_os (reparent reparent_rounds pcb null)
  reap_for_init for_init
  leave parent pcb
  in_os dispatch

-- `sys_exit`
unfoldable pub sys_exit : PcbPtr → Cmd Machine (Unit {0})
sys_exit pcb = do assert (not (pcb == null)); p ← in_os (load pcb); exit_to p.parent pcb p

-- The scan of `sys_wait`, from `&ptable[i]` on: the number of children seen, and the first that has
-- exited.
unfoldable pub find_kids : PcbPtr → (nkids i : ℕ) → List Pcb → ℕ × PcbPtr
find_kids pcb nkids i [] = (nkids, null)
find_kids pcb nkids i (p ∷ ps) =
    if is_child pcb (suc i) p
    then if is_zombie p.state then (nkids + 1, suc i) else find_kids pcb (nkids + 1) (i + 1) ps
    else find_kids pcb nkids (i + 1) ps

-- `sys_wait`
unfoldable pub sys_wait : PcbPtr → Cmd Machine (Unit {0})
sys_wait pcb = do
  assert (not (pcb == null))
  m ← get
  let (nkids, child) = find_kids pcb 0 0 m.clk.os.ptable
  if not (child == null)
      then (status_return pcb child >> in_os (pcb_cleanup child))
      else if ltb nkids 1
      then set_ret pcb s_no_child
      else (set_state pcb State.waiting >> in_os dispatch)
