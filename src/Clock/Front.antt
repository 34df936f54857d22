-- ===== src/Clock/Front.antt =====
-- The first entry of the sleep queue, and the outcome of the loop when it is woken.
use mathlib.Core.Path.{subst₂}
use os_team.Base.{
  ℕ, suc, ◌<◌, ◌≡◌, refl, sym, ap, ap₂, ◌∙◌, inl, inr, Bool, true, false, not, some, List, [], ◌∷◌,
  ◌++◌, get_elem?, set, arith, ltb, ◌==◌, if◌then◌else◌, Bool-cases, eq_of_==, ok,
}
use os_team.Base.Chain.{before, after}
use os_team.Queues.State.{Que}
use os_team.Queues.Model.{View}
use mathlib.Core.List.{append_assoc}
use os_team.Queues.Ops
use os_team.Queues.Ops.Dequeue.{peek-front, front}
use os_team.Procs.State.{Os, Pcb, PcbPtr, n_prios, in_que, local}
use os_team.Procs.Model.{Kernel, with_parts, sleep_ix}
use os_team.Clock.Wake.{is_due, of_priority, Wakes, awake_view}
use os_team.Clock.Table.{
  priority_at, make_ready, mark_ready, marked, wakeup_at-marked, priority_at-marked,
}

pub peek_at :
    {s : Os} {v : View} (k : Kernel s v) (l : List PcbPtr)
    → v.items sleep_ix ≡ l
    → in_que (Ops.peek s.sleeping local) s ≡ ok (front l) s
peek_at {s} {v} k l e =
    let seen : Ops.peek s.sleeping local s.que ≡ ok (front l) s.que =
      subst₂ (λ h xs. Ops.peek h local s.que ≡ ok (front xs) s.que) (sym k.sleeping) e
        (peek-front k.que sleep_ix local (omega arith) (omega arith)) in
    rw seen

-- What the entries of queue `i` come to, when the first sleeper is woken and then those behind it.
items_after :
    (v : View) (table : List Pcb) (k i : ℕ) (x : PcbPtr) (rest due later : List PcbPtr)
    → k < n_prios
    → priority_at table x ≡ k
    → (if i == sleep_ix then later else (awake_view v k x rest).items i ++ of_priority table i due)
      ≡ (if i == sleep_ix then later else v.items i ++ of_priority table i (x ∷ due))
unfolding of_priority
items_after v table k i x rest due later low prio = elim (Bool-cases (i == sleep_ix)) [
  | inl asleep ↦ rw asleep
  | inr awake ↦ elim (Bool-cases (i == k)) [
    | inl eq ↦
        let same : i ≡ k = eq_of_== i k eq in
        let ready : (k == sleep_ix) ≡ false = ground arith in
        let mine : (priority_at table x == i) ≡ true = ground arith in
        rw (awake, eq, ready, mine)
          (append_assoc (v.items k) (x ∷ []) (of_priority table i due)
            ∙ ap (λ n. v.items n ++ x ∷ of_priority table i due) (sym same))
    | inr ne ↦
        let other : (priority_at table x == i) ≡ false = ground arith in rw (awake, ne, other)
  ]
]

of_priority-marked :
    (table : List Pcb) (ix : ℕ) (p : Pcb) (here : get_elem? table ix ≡ some p) (i : ℕ)
    (l : List PcbPtr)
    → of_priority (marked table ix p here) i l ≡ of_priority table i l
unfolding of_priority
of_priority-marked table ix p here i [] = refl
of_priority-marked table ix p here i (x ∷ xs) =
    let same : priority_at (marked table ix p here) x ≡ priority_at table x =
      ap (λ f. f x) (priority_at-marked table ix p here) in
    ground (arith, of_priority-marked table ix p here i xs)

is_due-marked :
    (time : ℕ) (table : List Pcb) (ix : ℕ) (p : Pcb) (here : get_elem? table ix ≡ some p)
    → is_due time (marked table ix p here) ≡ is_due time table
is_due-marked time table ix p here =
    ap (λ f ptr. not (ltb time (f ptr))) (wakeup_at-marked table ix p here)

pass :
    (f : PcbPtr → Bool) (x : PcbPtr) (l : List PcbPtr)
    → f x ≡ true
    → (before f (x ∷ l) ≡ x ∷ before f l) × (after f (x ∷ l) ≡ after f l)
unfolding before after
pass f x l e = rw e (refl, refl)

pub halted :
    (f : PcbPtr → Bool) (x : PcbPtr) (l : List PcbPtr)
    → f x ≡ false
    → (before f (x ∷ l) ≡ []) × (after f (x ∷ l) ≡ x ∷ l)
unfolding before after
halted f x l e = rw e (refl, refl)

mark_cons :
    (table : List Pcb) (ix : ℕ) (p : Pcb) (here : get_elem? table ix ≡ some p) (l : List PcbPtr)
    → mark_ready (suc ix ∷ l) table ≡ mark_ready l (marked table ix p here)
unfolding mark_ready
mark_cons table ix p here l = ap (mark_ready l) (ground arith)

-- The outcome for the sleepers behind the first, read as the outcome for them all.
pub Wakes-cons :
    (time : ℕ) {s : Os} {v : View} (ix : ℕ) (p : Pcb) (rest : List PcbPtr) (q : Que) (s' : Os)
    → (here : get_elem? s.ptable ix ≡ some p) → p.priority < n_prios
    → is_due time s.ptable (suc ix) ≡ true
    → Wakes time
        (with_parts s q (set s.ptable ix (make_ready p)))
        (awake_view v p.priority (suc ix) rest)
        rest
        s'
    → Wakes time s v (suc ix ∷ rest) s'
Wakes-cons time {s} {v} ix p rest q s' here low due w = record {
  view = w.view;
  que = w.que;
  models = w.models;
  state =
      w.state
      ∙ ap (with_parts s w.que) (
          ap (λ l. mark_ready l (marked s.ptable ix p here)) dues
          ∙ sym (mark_cons s.ptable ix p here (before (is_due time s.ptable) rest))
          ∙ ap (λ l. mark_ready l s.ptable) (sym split.0));
  room = w.room;
  order = w.order;
  items = λ i.
      w.items i
      ∙ ap₂
          (λ l r. if i == sleep_ix then l else (awake_view v p.priority (suc ix) rest).items i ++ r)
          laters (of_priority-marked s.ptable ix p here i _ ∙ ap (of_priority s.ptable i) dues)
      ∙ items_after v s.ptable p.priority i (suc ix) rest (before (is_due time s.ptable) rest)
          (after (is_due time s.ptable) rest) low prio
      ∙ ap₂ (λ l r. if i == sleep_ix then l else v.items i ++ of_priority s.ptable i r)
          (sym split.1) (sym split.0);
}
  where
    same : is_due time (marked s.ptable ix p here) ≡ is_due time s.ptable
    same = is_due-marked time s.ptable ix p here

    dues :
        before (is_due time (marked s.ptable ix p here)) rest ≡ before (is_due time s.ptable) rest
    dues = ap (λ f. before f rest) same

    laters :
        after (is_due time (marked s.ptable ix p here)) rest ≡ after (is_due time s.ptable) rest
    laters = ap (λ f. after f rest) same

    split :
        (before (is_due time s.ptable) (suc ix ∷ rest)
          ≡ suc ix ∷ before (is_due time s.ptable) rest)
        × (after (is_due time s.ptable) (suc ix ∷ rest) ≡ after (is_due time s.ptable) rest)
    split = pass (is_due time s.ptable) (suc ix) rest due

    prio : priority_at s.ptable (suc ix) ≡ p.priority
    prio = rw (here, priority_at)
