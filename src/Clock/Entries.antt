-- ===== src/Clock/Entries.antt =====
-- The entries of the ready queues and of the sleep queue, counted and looked up together.
use mathlib.Core.Path.{subst}
use os_team.Base.{
  ℕ, zero, suc, ◌+◌, ◌≤◌, ◌<◌, ◌≡◌, refl, sym, ap, ◌∙◌, inl, inr, Bool, List, [], ◌∷◌, length,
  length-append, arith, ◌==◌, Bool-cases,
}
use os_team.Base.Chain.{All, before, after}
use os_team.Base.Chain.Split.{before-append-after}
use os_team.Queues.Model.{View, with_items}
use os_team.Queues.Model.Nodes.{All-append}
use os_team.Procs.State.{Pcb, PcbPtr, n_prios}
use os_team.Procs.Model.{sleep_ix}
use os_team.Procs.Sched.Dispatch.{First}
use os_team.Clock.Table.{IsSchedulable, priority_at}
use os_team.Clock.Wake.{of_priority}

-- The number of the processes that are ready or asleep.
abbrev pub population : View → ℕ
population v =
    length (v.items 0) + length (v.items 1) + length (v.items 2) + length (v.items sleep_ix)

pub population-with_items :
    (v : View) (room k : ℕ) (xs : List PcbPtr)
    → k ≤ sleep_ix
    → population (with_items v room k xs) + length (v.items k) ≡ population v + length xs
population-with_items v room zero xs h = omega arith
population-with_items v room (suc zero) xs h = omega arith
population-with_items v room (suc (suc zero)) xs h = omega arith
population-with_items v room (suc (suc (suc zero))) xs h = omega arith
population-with_items v room (suc (suc (suc (suc k)))) xs h = absurd (omega arith)

pub items_fit :
    (v : View) (k : ℕ) → k < n_prios → length (v.items k) + length (v.items sleep_ix) ≤ population v
items_fit v zero h = omega arith
items_fit v (suc zero) h = omega arith
items_fit v (suc (suc zero)) h = omega arith
items_fit v (suc (suc (suc k))) h = absurd (omega arith)

-- Every ready or sleeping process satisfies `P`.
abbrev pub Everyone : (PcbPtr → Type 0) → View → Type 0
Everyone P v = (i : ℕ) → i ≤ sleep_ix → All P (v.items i)

pub Everyone-with_items :
    (P : PcbPtr → Type 0) (v : View) (room k : ℕ) (xs : List PcbPtr)
    → Everyone P v
    → All P xs
    → Everyone P (with_items v room k xs)
Everyone-with_items P v room k xs h new i low = elim (Bool-cases (i == k)) [
  | inl eq ↦ rw eq new
  | inr ne ↦ rw ne (h i low)
]

empty_below1 : (v : View) → v.items 0 ≡ [] → (j : ℕ) → j < 1 → v.items j ≡ []
empty_below1 v e0 zero h = e0
empty_below1 v e0 (suc j) h = absurd (omega arith)

empty_below2 : (v : View) → v.items 0 ≡ [] → v.items 1 ≡ [] → (j : ℕ) → j < 2 → v.items j ≡ []
empty_below2 v e0 e1 zero h = e0
empty_below2 v e0 e1 (suc j) h =
    empty_below1 (record v { items = λ n. v.items (suc n) }) e1 j (omega arith)

empty_below3 :
    (v : View)
    → v.items 0 ≡ []
    → v.items 1 ≡ []
    → v.items 2 ≡ []
    → (j : ℕ) → j < n_prios
    → v.items j ≡ []
empty_below3 v e0 e1 e2 zero h = e0
empty_below3 v e0 e1 e2 (suc j) h =
    empty_below2 (record v { items = λ n. v.items (suc n) }) e1 e2 j (omega arith)

-- When a ready queue has an entry, one is the first that has.
pub some_First :
    (v : View) (k : ℕ) (x : PcbPtr) (xs : List PcbPtr)
    → k < n_prios
    → v.items k ≡ x ∷ xs
    → (i : ℕ) × (p : PcbPtr) × (rest : List PcbPtr) × First v i p rest
some_First v k x xs low e = by_items (v.items 0) (v.items 1) (v.items 2) refl refl refl
  where
    by_items :
        (l0 l1 l2 : List PcbPtr)
        → v.items 0 ≡ l0
        → v.items 1 ≡ l1
        → v.items 2 ≡ l2
        → (i : ℕ) × (p : PcbPtr) × (rest : List PcbPtr) × First v i p rest
    by_items (p ∷ rest) l1 l2 e0 e1 e2 = (
      0,
      p,
      rest,
      record { low = omega arith; entries = e0; above = λ j h. absurd (omega arith) },
    )
    by_items [] (p ∷ rest) l2 e0 e1 e2 =
        (1, p, rest, record { low = omega arith; entries = e1; above = empty_below1 v e0 })
    by_items [] [] (p ∷ rest) e0 e1 e2 =
        (2, p, rest, record { low = omega arith; entries = e2; above = empty_below2 v e0 e1 })
    by_items [] [] [] e0 e1 e2 = absurd (ground (arith, empty_below3 v e0 e1 e2 k low))

pub of_priority-All :
    (P : PcbPtr → Type 0) (table : List Pcb) (k : ℕ) (l : List PcbPtr)
    → All P l
    → All P (of_priority table k l)
unfolding of_priority
of_priority-All P table k [] h = tt
of_priority-All P table k (x ∷ xs) h =
    let rest = of_priority-All P table k xs h.1 in
    elim (Bool-cases (priority_at table x == k)) [
      | inl eq ↦ rw eq (h.0, rest)
      | inr ne ↦ rw ne rest
    ]

priority_at-low :
    (table : List Pcb) (x : PcbPtr) → IsSchedulable table x → priority_at table x < n_prios
priority_at-low table x h =
    subst (λ y. priority_at table y < n_prios) (sym h.points) (ground (arith, h.there, h.low))

pub length-of_priority :
    (table : List Pcb) (l : List PcbPtr)
    → All (IsSchedulable table) l
    → length (of_priority table 0 l)
        + length (of_priority table 1 l)
        + length (of_priority table 2 l)
      ≡ length l
unfolding of_priority
length-of_priority table [] h = refl
length-of_priority table (x ∷ xs) h =
    ground (arith, length-of_priority table xs h.1, priority_at-low table x h.0)

pub before-after-All :
    (P : PcbPtr → Type 0) (go_on : PcbPtr → Bool) (l : List PcbPtr)
    → All P l
    → All P (before go_on l) × All P (after go_on l)
before-after-All P go_on l h =
    All-append P (before go_on l) (after go_on l)
      (subst (λ (xs : List PcbPtr). All P xs) (sym (before-append-after go_on l)) h)

pub length-before-after :
    (go_on : PcbPtr → Bool) (l : List PcbPtr)
    → length (before go_on l) + length (after go_on l) ≡ length l
length-before-after go_on l =
    sym (length-append (before go_on l) (after go_on l)) ∙ ap length (before-append-after go_on l)
