-- ===== src/Procs/Sched/Ready.antt =====
-- `schedule` of kernel/procs.c over the view of the ready queues.
use mathlib.Core.Path.{subst}
use os_team.Base.{
  ℕ, zero, suc, ◌+◌, ◌^◌, ◌<◌, ◌≡◌, refl, ap, ◌∙◌, true, some, List, [], ◌∷◌, ◌++◌, length,
  get_elem?, set, lt_of_get_elem?, arith, ltb, ok, Returns, returns, bind,
}
use os_team.Base.Chain.{null}
use os_team.Queues.Model.{View, Models, with_items}
use os_team.Queues.Ops
use os_team.Queues.Ops.Enqueue.{enqueue, insert-enqueue, enqueue-fifo}
use os_team.Procs.State.{Os, Pcb, PcbPtr, State, n_procs, n_prios, call, store, pcb_ix}
use os_team.Procs.Model.{Kernel, Becomes, in_que-Returns, load-ok}
use os_team.Procs.Sched.{ready_queue, schedule, in_table}

pub ready_queue-ok :
    (s : Os) (i : ℕ) → s.ready ≡ 1 ∷ 2 ∷ 3 ∷ [] → i < n_prios → ready_queue i s ≡ ok (suc i) s
unfolding ready_queue
ready_queue-ok s zero e h = ground arith
ready_queue-ok s (suc zero) e h = ground arith
ready_queue-ok s (suc (suc zero)) e h = ground arith
ready_queue-ok s (suc (suc (suc i))) e h = absurd (omega arith)

in_table-true : (ix : ℕ) → ix < n_procs → in_table (suc ix) ≡ true
unfolding pcb_ix
in_table-true ix h = ground arith

ready_entries :
    (table : List Pcb) (v : View) (i : ℕ) (x : PcbPtr)
    → v.order i ≡ null
    → enqueue (call table) (v.order i) x (v.items i) ≡ v.items i ++ x ∷ []
ready_entries table v i x fifo =
    ap (λ o. enqueue (call table) o x (v.items i)) fifo ∙ enqueue-fifo (call table) x (v.items i)

-- A process of the table with a priority of the system, of which there is a qnode to queue it,
-- becomes the last entry of its ready queue, and its state says so. Nothing else changes.
pub schedule-Becomes :
    {s : Os} {v : View} (r ix : ℕ) (p : Pcb)
    → Kernel s v
    → v.room ≡ suc r
    → get_elem? s.ptable ix ≡ some p
    → p.priority < n_prios
    → length (v.items p.priority) + 1 < 2 ^ 32
    → Returns
        (Becomes s
          (with_items v r p.priority (v.items p.priority ++ suc ix ∷ []))
          (set s.ptable ix (record p { state = State.ready })))
        (schedule (suc ix) s)
unfolding schedule store
schedule-Becomes {s} {v} r ix p k room here prio fits =
    let inside : ix < n_procs = omega (arith, lt_of_get_elem? s.ptable ix here, k.procs) in
    let low : ltb p.priority n_prios ≡ true = ground arith in
    rw (in_table-true ix inside, load-ok s ix p here, low, ready_queue-ok s p.priority k.ready prio)
      (bind
        (in_que-Returns s (Ops.insert (call s.ptable) (suc p.priority) (suc ix))
          (insert-enqueue (call s.ptable) r p.priority (suc ix) k.que room (omega arith) fits))
        (λ st s1 (q, e, done).
          rw (done.0, e)
            (returns (
              q,
              refl,
              subst (λ l. Models q (with_items v r p.priority l))
                  (ready_entries s.ptable v p.priority (suc ix) (k.fifo p.priority (omega arith)))
                  (done.1),
            ))))
