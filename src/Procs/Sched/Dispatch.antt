-- ===== src/Procs/Sched/Dispatch.antt =====
-- `dispatch` of kernel/procs.c over the view of the ready queues.
use mathlib.Core.Path.{subst}
use os_team.Base.{
  ℕ, zero, suc, ◌+◌, ◌≤◌, ◌<◌, ◌≡◌, refl, ap, Option, some, List, [], ◌∷◌, get_elem?, set, arith,
  panic, stop, Returns, returns, bind,
}
use os_team.Base.Chain.{Ptr, null}
use os_team.Queues.State.{Que, Status, success}
use os_team.Queues.Model.{View, Models, with_items}
use native.Mathlib.Decide.{dec_lt}
use os_team.Queues.Ops
use os_team.Queues.Ops.Dequeue.{Dequeues, remove-Dequeues, remove_empty, address-ne_null}
use os_team.Procs.State.{Os, Pcb, PcbPtr, State, n_prios, q_std, with_que, store, local}
use os_team.Procs.Model.{Kernel, Becomes, in_que-Returns, load-ok}
use os_team.Procs.Sched.{next_ready, dispatch, stored_or}
use os_team.Procs.Sched.Ready.{ready_queue-ok}
use os_team.Queues.Ops
use os_team.Queues.Ops.Dequeue.{Dequeues, remove-Dequeues}
use os_team.Procs.State.{Os, Pcb, PcbPtr, State, n_prios, q_std, with_que, store, local}
use os_team.Procs.Model.{Kernel, Becomes, in_que-Returns, load-ok}
use os_team.Procs.Sched.{next_ready, dispatch, stored_or}
use os_team.Procs.Sched.Ready.{ready_queue-ok}

-- Queue `i` is the first ready queue with an entry: these are its entries.
pub record First (v : View) (i : ℕ) (p : PcbPtr) (rest : List PcbPtr) : Type 0 where
  pub low : i < n_prios
  pub entries : v.items i ≡ p ∷ rest
  pub above : (j : ℕ) → j < i → v.items j ≡ []

-- What the loop returns: the first entry, gone from its queue.
abbrev Finds : Os → View → ℕ → PcbPtr → List PcbPtr → PcbPtr → Os → Type 0
Finds s v i p rest got s' =
    (q : Que) × (s' ≡ with_que s q) × (got ≡ p) × Models q (with_items v (suc v.room) i rest)

module _ {s : Os} {v : View} (k : Kernel s v) where
  take_here :
      (rounds i : ℕ) (p : PcbPtr) (rest : List PcbPtr)
      → i < n_prios
      → v.items i ≡ p ∷ rest
      → Returns (Finds s v i p rest) (next_ready (suc rounds) i s)
  unfolding next_ready
  take_here rounds i p rest low e = rw (ready_queue-ok s i k.ready low) (
      bind
        (in_que-Returns s (Ops.remove (suc i) local) (
          subst (λ l. Returns (Dequeues s.que v i l) (Ops.remove (suc i) local s.que)) e
            (remove-Dequeues k.que i local (omega arith) (omega arith))))
        (λ got s1 (q, e, done).
          let st : got.0 ≡ success = ap (λ (g : Status × Option Ptr). g.0) done.0 in
          rw (st, e)
            (returns
              (q, refl, ap (λ (g : Status × Option Ptr). stored_or g.1 null) done.0, done.1))))

  pass_empty :
      (rounds i : ℕ)
      → i < n_prios
      → v.items i ≡ []
      → next_ready (suc rounds) i s ≡ next_ready rounds (i + 1) s
  unfolding next_ready
  pass_empty rounds i low e =
      rw (ready_queue-ok s i k.ready low, remove_empty k.que i (omega arith) local (omega arith) e)

  -- The loop from queue `i` on, which is not below the first that has an entry.
  find :
      (rounds i j : ℕ) (p : PcbPtr) (rest : List PcbPtr)
      → First v j p rest
      → i ≤ j
      → j < i + rounds
      → i + rounds ≡ n_prios
      → Returns (Finds s v j p rest) (next_ready rounds i s)
  find zero i j p rest f le lt total = absurd (omega arith)
  find (suc rounds) i j p rest f le lt total = elim (dec_lt i j) [
    | yes above ↦
        rw (pass_empty rounds i (omega arith) (f.above i above))
          (find rounds (i + 1) j p rest f (omega arith) (omega arith) (omega arith))
    | no here ↦
        let same : j ≡ i = omega arith in
        subst (λ n. Returns (Finds s v j p rest) (next_ready (suc rounds) n s)) same
          (take_here rounds j p rest f.low f.entries)
  ]

-- The process that `dispatch` picks is the first entry of the highest ready queue that has one. It
-- leaves that queue, and becomes the current process: it is running, with a full quantum.
pub dispatch-Becomes :
    {s : Os} {v : View} (i ix : ℕ) (p : Pcb) (rest : List PcbPtr)
    → Kernel s v
    → First v i (suc ix) rest
    → get_elem? s.ptable ix ≡ some p
    → Returns
        (λ d s'.
          (s'.current ≡ suc ix)
          × Becomes
              (record s { current = suc ix })
              (with_items v (suc v.room) i rest)
              (set s.ptable ix (record p { state = State.running; quantum = q_std }))
              d
              s')
        (dispatch s)
unfolding dispatch store
dispatch-Becomes {s} {v} i ix p rest k f here =
    bind (find k n_prios 0 i (suc ix) rest f (omega arith) (omega (arith, f.low)) refl)
      (λ got s1 (q, e, first, models).
        rw (first, e, address-ne_null ix, load-ok (with_que s q) ix p here)
          (returns (refl, (q, refl, models))))

-- With no process in a ready queue, `dispatch` stops the machine with a panic.
pub dispatch_idle :
    {s : Os} {v : View}
    → Kernel s v
    → ((i : ℕ) → i < n_prios → v.items i ≡ [])
    → dispatch s ≡ stop panic
unfolding dispatch
dispatch_idle {s} {v} k none_ready =
    rw
      (
        pass_empty k 2 0 (omega arith) (none_ready 0 (omega arith)),
        pass_empty k 1 1 (omega arith) (none_ready 1 (omega arith)),
        pass_empty k 0 2 (omega arith) (none_ready 2 (omega arith)),
      )
      (unfold next_ready in refl)
