-- ===== src/Clock/Loop.antt =====
-- The rounds of the loop in `clk_isr` that wakes the sleeping processes.
use mathlib.Core.Path.{subst}
use os_team.Base.{
  ℕ, zero, suc, ◌+◌, ◌^◌, ◌≤◌, ◌<◌, ◌≡◌, refl, sym, ap, ◌∙◌, inl, inr, false, some, List, [], ◌∷◌,
  length, get_elem?, set, length-append, length-set, arith, ltb, ◌==◌, Bool-cases, eq_of_==,
  Returns, returns, bind, mono,
}
use os_team.Base.Chain.{All, before, after}
use os_team.Queues.State.{Que}
use os_team.Queues.Model.{View, Models}
use mathlib.Core.List.{append-nil}
use os_team.Queues.Ops.Dequeue.{address-ne_null}
use os_team.Procs.State.{Os, Pcb, PcbPtr, n_prios}
use os_team.Procs.Model.{Kernel, Becomes, with_parts, Kernel-with_parts, load-ok, sleep_ix}
use os_team.Clock.{awaken, wake}
use os_team.Clock.Wake.{is_due, of_priority, Wakes, awake_view, awaken-Becomes}
use os_team.Clock.Table.{IsSchedulable, make_ready, mark_ready, All-set}
use os_team.Clock.Front.{peek_at, halted, Wakes-cons}

awake_view_sleep :
    (v : View) (k : ℕ) (x : PcbPtr) (rest : List PcbPtr)
    → k < n_prios
    → (awake_view v k x rest).items sleep_ix ≡ rest
awake_view_sleep v k x rest low = ground arith

awake_view_length :
    (v : View) (k : ℕ) (x : PcbPtr) (rest : List PcbPtr) (i : ℕ)
    → i < n_prios
    → length ((awake_view v k x rest).items i) + length rest
      ≤ length (v.items i) + length (x ∷ rest)
awake_view_length v k x rest i low =
    ground (arith, length-append (v.items k) (x ∷ []), eq_of_== i k)

not_due :
    (time : ℕ) {s : Os} {v : View} (x : PcbPtr) (rest : List PcbPtr)
    → Kernel s v
    → v.items sleep_ix ≡ x ∷ rest
    → is_due time s.ptable x ≡ false
    → Wakes time s v (x ∷ rest) s
unfolding mark_ready of_priority
not_due time {s} {v} x rest k first late =
    let cut = halted (is_due time s.ptable) x rest late in
    record {
      view = v;
      que = s.que;
      models = k.que;
      state = ap (λ l. with_parts s s.que (mark_ready l s.ptable)) (sym cut.0);
      room = refl;
      order = refl;
      items = λ i. elim (Bool-cases (i == sleep_ix)) [
        | inl asleep ↦ rw (asleep, cut.1) (ap v.items (eq_of_== i sleep_ix asleep) ∙ first)
        | inr awake ↦ rw (awake, cut.0) (sym (append-nil (v.items i)))
      ];
    }

no_sleepers :
    (time : ℕ) {s : Os} {v : View} → Kernel s v → v.items sleep_ix ≡ [] → Wakes time s v [] s
unfolding mark_ready of_priority before after
no_sleepers time {s} {v} k first = record {
  view = v;
  que = s.que;
  models = k.que;
  state = refl;
  room = refl;
  order = refl;
  items = λ i. elim (Bool-cases (i == sleep_ix)) [
    | inl asleep ↦ rw asleep (ap v.items (eq_of_== i sleep_ix asleep) ∙ first)
    | inr awake ↦ rw awake (sym (append-nil (v.items i)))
  ];
}

-- One round of the loop, when the rounds after it do their work.
wake_round :
    (n time ix : ℕ) (p : Pcb) (rest : List PcbPtr) {s : Os} {v : View}
    → Kernel s v
    → v.items sleep_ix ≡ suc ix ∷ rest
    → get_elem? s.ptable ix ≡ some p
    → p.priority < n_prios
    → length (v.items p.priority) + 1 < 2 ^ 32
    → ((q : Que)
        → Models q (awake_view v p.priority (suc ix) rest)
        → let s1 = with_parts s q (set s.ptable ix (make_ready p)) in
          Returns
            (λ _ s'. Wakes time s1 (awake_view v p.priority (suc ix) rest) rest s')
            (wake n time s1))
    → Returns (λ _ s'. Wakes time s v (suc ix ∷ rest) s') (wake (suc n) time s)
unfolding wake
wake_round n time ix p rest {s} {v} k first here low fits rounds =
    rw (peek_at k (suc ix ∷ rest) first, address-ne_null ix, load-ok s ix p here)
      (elim (Bool-cases (ltb time p.wakeup)) [
        | inl late ↦ rw late (returns (not_due time (suc ix) rest k first (ground (arith, late))))
        | inr due ↦ rw due (
            bind
              (subst
                (λ h.
                  Returns
                    (Becomes s (awake_view v p.priority (suc ix) rest)
                      (set s.ptable ix (make_ready p)))
                    (awaken h (suc ix) s))
                (sym k.sleeping) (awaken-Becomes ix p rest k first here low fits))
              (λ _ s1 (q, e, models).
                subst (λ t. Returns (λ _ s'. Wakes time s v (suc ix ∷ rest) s') (wake n time t))
                  (sym e)
                  (mono (rounds q models)
                    (λ _ s'. Wakes-cons time ix p rest q s' here low (ground (arith, due))))))
      ])

-- With a round more than there are sleepers, the loop returns with the sleepers at the front of the
-- queue that are due woken. The ready queues' counters have room for all the sleepers.
pub wake-Wakes :
    (n time : ℕ) (l : List PcbPtr) {s : Os} {v : View}
    → Kernel s v
    → v.items sleep_ix ≡ l
    → All (IsSchedulable s.ptable) l
    → length l < n
    → ((i : ℕ) → i < n_prios → length (v.items i) + length l < 2 ^ 32)
    → Returns (λ _ s'. Wakes time s v l s') (wake n time s)
unfolding wake
wake-Wakes zero time l k first known enough fits = absurd (omega arith)
wake-Wakes (suc n) time [] k first known enough fits =
    rw (peek_at k [] first) (returns (no_sleepers time k first))
wake-Wakes (suc n) time (x ∷ rest) {s} {v} k first known enough fits =
    let here = known.0 in
    let front_fits : length (v.items here.pcb.priority) + 1 < 2 ^ 32 =
      omega (arith, fits here.pcb.priority here.low) in
    subst (λ y. Returns (λ _ s'. Wakes time s v (y ∷ rest) s') (wake (suc n) time s))
      (sym here.points)
      (wake_round n time here.ix here.pcb rest k (first ∙ ap (λ y. y ∷ rest) here.points) here.there
        here.low front_fits
        (λ q models.
          wake-Wakes n time rest
            (Kernel-with_parts k (awake_view v here.pcb.priority (suc here.ix) rest) q
              (set s.ptable here.ix (make_ready here.pcb)) models refl
              (length-set s.ptable here.ix (make_ready here.pcb)))
            (awake_view_sleep v here.pcb.priority (suc here.ix) rest here.low)
            (All-set s.ptable here.ix here.pcb (make_ready here.pcb) here.there refl rest known.1)
            (omega arith)
            (λ i small. omega (
              arith,
              awake_view_length v here.pcb.priority (suc here.ix) rest i small,
              fits i small,
            ))))
