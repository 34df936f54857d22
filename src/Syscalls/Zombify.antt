-- ===== src/Syscalls/Zombify.antt =====
-- A process of a running system that becomes a zombie: pcb_zombify and dispatch of kernel/procs.c, as
-- sys_exit of kernel/syscalls.c calls them.
use mathlib.Core.Path.{subst}
use os_team.Base.{
  ℕ, suc, ◌+◌, ◌^◌, ◌<◌, ◌≡◌, refl, sym, ap, ◌∙◌, some, List, [], ◌∷◌, ◌++◌, false, ◌==◌, returns,
  length, get_elem?, set, length-set, arith, ◌>>◌, ◌>>=◌, assert, Returns, mono, bind,
}
use os_team.Base.Chain.{All, null}
use os_team.Queues.State.{Que}
use os_team.Queues.Model.{View, Models, with_items}
use os_team.Queues.Ops
use os_team.Queues.Ops.Enqueue.{enqueue, insert-enqueue, enqueue-fifo}
use os_team.Procs.State.{
  Os, Pcb, PcbPtr, State, n_prios, with_pcb, with_que, store, call, que_insert,
}
use os_team.Procs.Model.{Kernel, Kernel-with_parts, in_que-Returns, load-ok, zombie_ix}
use os_team.Procs.Table.{pcb_zombify, is_success}
use os_team.Procs.Sched.{dispatch}
use os_team.Clock.Table.{IsSchedulable, All-set}
use os_team.Clock.Entries.{Everyone}
use os_team.Clock.Switch.{Waiting, Resumes, Resumes-que, dispatch-Resumes}

module _ {s : Os} {v : View} (w : Waiting s v) (r ix : ℕ) (p : Pcb) (room : v.room ≡ suc r)
    (there : get_elem? s.ptable ix ≡ some p) (few : length (v.items zombie_ix) + 1 < 2 ^ 32) where
  abbrev pub dead : Pcb
  dead = record p { state = State.zombie }

  abbrev pub buried : Os
  buried = with_pcb s ix dead

  abbrev pub grave : View
  grave = with_items v r zombie_ix (v.items zombie_ix ++ suc ix ∷ [])

  buried-Kernel : Kernel buried v
  buried-Kernel =
      Kernel-with_parts w.kernel v s.que (set s.ptable ix dead) w.kernel.que refl
        (length-set s.ptable ix dead)

  grave-Everyone : Everyone (IsSchedulable buried.ptable) grave
  grave-Everyone i low =
      let same : grave.items i ≡ v.items i = ground arith in
      subst (λ (l : List PcbPtr). All (IsSchedulable buried.ptable) l) (sym same)
        (All-set s.ptable ix p dead there refl (v.items i) (w.everyone i low))

  grave-Waiting : (q : Que) → Models q grave → Waiting (with_que buried q) grave
  grave-Waiting q models = record {
    kernel = Kernel-with_parts buried-Kernel grave q buried.ptable models refl refl;
    everyone = grave-Everyone;
    fits = w.fits;
  }

  abbrev Inserted : Unit {0} → Os → Type 0
  Inserted _ s1 =
      (q : Que) × (s1 ≡ with_que buried q)
      × Models q (
          with_items v r zombie_ix
            (enqueue (call buried.ptable) (v.order zombie_ix) (suc ix) (v.items zombie_ix)))

  -- A process of the table, of which no queue holds an entry, becomes the last zombie, and another
  -- process goes on.
  pub zombify-Resumes :
      (i : ℕ) (x : PcbPtr) (xs : List PcbPtr)
      → i < n_prios
      → v.items i ≡ x ∷ xs
      → Returns (λ _ s'. Resumes buried grave s') ((pcb_zombify (suc ix) >> dispatch) s)
  unfolding pcb_zombify store
  zombify-Resumes i x xs low e =
      let others : grave.items i ≡ x ∷ xs = ground arith in
      let order : enqueue (call buried.ptable) (v.order zombie_ix) (suc ix) (v.items zombie_ix)
          ≡ v.items zombie_ix ++ suc ix ∷ [] =
        ap (λ o. enqueue (call buried.ptable) o (suc ix) (v.items zombie_ix))
          (w.kernel.fifo zombie_ix (omega arith))
        ∙ enqueue-fifo (call buried.ptable) (suc ix) (v.items zombie_ix) in
      let named : (suc ix == null) ≡ false = ground arith in
      rw (named, load-ok s ix p there)
        (subst
          (λ h.
            Returns (λ _ s'. Resumes buried grave s')
              (((que_insert h (suc ix) >>= λ st. assert (is_success st)) >> dispatch) buried))
          (sym w.kernel.zombie)
          (bind {P = Inserted}
            (bind {Q = Inserted}
              (in_que-Returns buried (Ops.insert (call buried.ptable) (suc zombie_ix) (suc ix)) (
                insert-enqueue (call buried.ptable) r zombie_ix (suc ix) w.kernel.que room
                  (omega arith) few))
              (λ st s1 (q, e1, done). rw (done.0) (returns (q, e1, done.1))))
            (λ _ s1 (q, e1, inserted).
              let models : Models q grave =
                subst (λ (l : List PcbPtr). Models q (with_items v r zombie_ix l)) order inserted in
              subst (λ t. Returns (λ _ s'. Resumes buried grave s') (dispatch t)) (sym e1)
                (mono (dispatch-Resumes i x xs (grave-Waiting q models) low others)
                  (λ _ s2 r. Resumes-que q r)))))
