-- ===== src/Queues/Ops/Sorted.antt =====
-- Insertion by an ordering function, and ascending order.
use os_team.Base.{ℕ, ◌≤◌, ◌≡◌, leb, List, [], ◌∷◌, arith, Bool-cases, inl, inr}
use os_team.Base.Int.{ℤ, nonneg}
use os_team.Base.Chain.{Ptr, All}
use os_team.Queues.Ops.Enqueue.{place}

-- Each entry has a key that is not above those behind it.
abbrev pub Ascending : (Ptr → ℕ) → List Ptr → Type 0
Ascending key [] = Unit
Ascending key (x ∷ xs) = All (λ y. key x ≤ key y) xs × Ascending key xs

All-place :
    (P : Ptr → Type 0) (cmp : Ptr → Ptr → ℤ) (x : Ptr) (xs : List Ptr)
    → P x
    → All P xs
    → All P (place cmp x xs)
unfolding place
All-place P cmp x [] p h = (p, tt)
All-place P cmp x (y ∷ ys) p h =
    let rest = All-place P cmp x ys p h.1 in
    elim (Bool-cases (nonneg (cmp x y))) [
      | inl behind ↦ rw behind (h.0, rest)
      | inr here ↦ rw here (p, (h.0, h.1))
    ]

All-le :
    (key : Ptr → ℕ) (a b : ℕ) (xs : List Ptr)
    → a ≤ b
    → All (λ y. b ≤ key y) xs
    → All (λ y. a ≤ key y) xs
All-le key a b [] le h = tt
All-le key a b (x ∷ xs) le h = (omega (arith, h.0), All-le key a b xs le h.1)

pub place-Ascending :
    (key : Ptr → ℕ) (cmp : Ptr → Ptr → ℤ) (x : Ptr) (xs : List Ptr)
    → ((a b : Ptr) → nonneg (cmp a b) ≡ leb (key b) (key a))
    → Ascending key xs
    → Ascending key (place cmp x xs)
unfolding place
place-Ascending key cmp x [] by_key h = (tt, tt)
place-Ascending key cmp x (y ∷ ys) by_key h =
    let rest = place-Ascending key cmp x ys by_key h.1 in
    elim (Bool-cases (nonneg (cmp x y))) [
      | inl behind ↦
          rw behind (All-place (λ z. key y ≤ key z) cmp x ys (ground (arith, by_key x y)) h.0, rest)
      | inr here ↦
          let low : key x ≤ key y = ground (arith, by_key x y) in
          rw here ((low, All-le key (key x) (key y) ys low h.0), (h.0, h.1))
    ]
