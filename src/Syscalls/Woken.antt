-- ===== src/Syscalls/Woken.antt =====
-- A parent that waits for a child that exits: schedule, pcb_cleanup and dispatch of kernel/procs.c, as
-- sys_exit of kernel/syscalls.c calls them.
use mathlib.Core.Path.{subst}
use os_team.Base.{
  ℕ, suc, ◌+◌, ◌^◌, ◌<◌, ◌≡◌, ◌≢◌, refl, sym, ap, ◌∙◌, some, List, [], ◌∷◌, ◌++◌, length, get_elem?,
  set, length-set, get_elem?-set_ne, arith, ◌>>◌, Returns, mono, bind,
}
use os_team.Base.Chain.{All, null}
use os_team.Queues.State.{Que}
use os_team.Queues.Model.{View, with_items}
use os_team.Procs.State.{Os, Pcb, State, n_prios}
use os_team.Procs.Model.{with_parts}
use os_team.Procs.Table.{pcb_cleanup}
use os_team.Procs.Table.Cleanup.{Cleaned, pcb_cleanup-Cleaned}
use os_team.Procs.Sched.{schedule, dispatch}
use os_team.Procs.Sched.Ready.{schedule-Becomes}
use os_team.Clock.Table.{IsSchedulable, All-set, make_ready}
use os_team.Clock.Entries.{population, items_fit}
use os_team.Clock.Switch.{
  Waiting, Resumes, Resumes-que, dispatch-Resumes, queued, queued-Waiting, snoc_cons,
}

-- The queues do not know of the stacks.
Cleaned-Waiting :
    {s : Os} {v : View} (w : Waiting s v) (ix : ℕ) (p : Pcb) (s' : Os)
    → get_elem? s.ptable ix ≡ some p
    → Cleaned s ix p s'
    → Waiting s' v
Cleaned-Waiting {s} {v} w ix p s' there c =
    let gone : Pcb = record p { state = State.unused; stack = null } in
    let size : length c.table ≡ length s.ptable = ap length c.sets ∙ length-set s.ptable ix gone in
    subst (λ t. Waiting t v) (sym c.state)
      (record {
        kernel = record {
          que = w.kernel.que;
          ready = w.kernel.ready;
          sleeping = w.kernel.sleeping;
          zombie = w.kernel.zombie;
          blocked = w.kernel.blocked;
          sioread = w.kernel.sioread;
          fifo = w.kernel.fifo;
          timed = w.kernel.timed;
          procs = size ∙ w.kernel.procs;
        };
        everyone = λ i low.
            subst (λ (t : List Pcb). All (IsSchedulable t) (v.items i)) (sym c.sets)
              (All-set s.ptable ix p gone there refl (v.items i) (w.everyone i low));
        fits = w.fits;
      })

-- The parent is ready, at the end of the queue of its priority, the child is cleaned up, and the first of
-- the highest ready queue goes on.
abbrev pub HandsOver : (s : Os) (v : View) (r px ix : ℕ) (parent p : Pcb) → Unit {0} → Os → Type 0
HandsOver s v r px ix parent p _ s' =
    (s2 : Os) × Cleaned (record s { ptable = set s.ptable px (make_ready parent) }) ix p s2
    × Resumes s2 (with_items v r parent.priority (v.items parent.priority ++ suc px ∷ [])) s'

pub wake_parent-HandsOver :
    {s : Os} {v : View} (w : Waiting s v) (r px ix : ℕ) (parent p : Pcb)
    → v.room ≡ suc r
    → get_elem? s.ptable px ≡ some parent
    → get_elem? s.ptable ix ≡ some p
    → px ≢ ix
    → parent.priority < n_prios
    → population v + 1 < 2 ^ 32
    → Returns
        (HandsOver s v r px ix parent p)
        ((schedule (suc px) >> pcb_cleanup (suc ix) >> dispatch) s)
wake_parent-HandsOver {s} {v} w r px ix parent p room there child apart low fits =
    let next = queued w r px parent room there low fits in
    let ready = set s.ptable px (make_ready parent) in
    let (x, xs, e) = snoc_cons (v.items parent.priority) (suc px) in
    let here : next.items parent.priority ≡ v.items parent.priority ++ suc px ∷ [] = ground arith in
    bind {P = λ _ s2. (q : Que) × Cleaned (with_parts s q ready) ix p s2 × Waiting s2 next}
      (bind
        (schedule-Becomes r px parent w.kernel room there low
          (omega (arith, items_fit v parent.priority low, fits)))
        (λ _ s1 (q, e1, models).
          let w1 = queued-Waiting w r px parent room there low fits q models in
          let kept : get_elem? ready ix ≡ some p =
            get_elem?-set_ne s.ptable px ix (make_ready parent) apart ∙ child in
          subst
            (λ t.
              Returns
                (λ _ s2. (q' : Que) × Cleaned (with_parts s q' ready) ix p s2 × Waiting s2 next)
                (pcb_cleanup (suc ix) t))
            (sym e1)
            (mono (pcb_cleanup-Cleaned (with_parts s q ready) ix p kept)
              (λ _ s2 c. (q, c, Cleaned-Waiting w1 ix p s2 kept c)))))
      (λ _ s2 (q, c, w2). mono (dispatch-Resumes parent.priority x xs w2 low (here ∙ e)) (λ _ s3 r3.
        let cleaned : Os = record s {
          ptable = c.table;
          free_stacks = c.free_stacks;
          stack_next = c.stack_next;
        } in
        (
          cleaned,
          record {
            table = c.table;
            free_stacks = c.free_stacks;
            stack_next = c.stack_next;
            state = refl;
            sets = c.sets;
            stacks = c.stacks;
          },
          Resumes-que q (subst (λ t. Resumes t next s3) c.state r3),
        )))
