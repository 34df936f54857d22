-- ===== src/Base/Chain/Split.antt =====
-- The traversal of a chain, and the two parts into which its test splits it.
use Prim.Native.Nat.{ℕ, zero, suc, ◌<◌}
use mathlib.Core.Path.{subst, ◌≡◌, refl, ap}
use mathlib.Core.Logic.{inl, inr}
use mathlib.Core.Bool.{Bool, true, false}
use mathlib.Core.Option.{some}
use mathlib.Core.List.{List, [], ◌∷◌, ◌++◌}
use native.Mathlib.Omega.{arith}
use os_team.Base.Tests.{Bool-cases, if◌then◌else◌}
use os_team.Base.Lists.{length}
use os_team.Base.Chain.{Ptr, null, Chain, All, last_or, head_or, before, after, walk}

pub walk_lem :
    (next : Ptr → Ptr) (go_on : Ptr → Bool) (k : ℕ) (prev p : Ptr) (xs : List Ptr)
    → Chain next p xs
    → length xs < k
    → walk next go_on k prev p
      ≡ some (last_or prev (before go_on xs), head_or null (after go_on xs))
unfolding walk before after
walk_lem next go_on zero prev p xs c h = absurd (omega arith)
walk_lem next go_on (suc k) prev p [] c h = ground arith
walk_lem next go_on (suc k) prev p (x ∷ xs) c h =
    ground (arith, walk_lem next go_on k p (next x) xs c.3)

pub before-append-after {ℓ} :
    {A : Type ℓ} (go_on : A → Bool) (xs : List A) → before go_on xs ++ after go_on xs ≡ xs
unfolding before after
before-append-after go_on [] = refl
before-append-after go_on (x ∷ xs) = elim (Bool-cases (go_on x)) [
  | inl pass ↦ rw pass (ap (λ l. x ∷ l) (before-append-after go_on xs))
  | inr fail ↦ rw fail
]

pub All-before :
    {A : Type 0} (go_on : A → Bool) (xs : List A) → All (λ x. go_on x ≡ true) (before go_on xs)
unfolding before
All-before go_on [] = tt
All-before go_on (x ∷ xs) = elim (Bool-cases (go_on x)) [
  | inl pass ↦ rw pass (pass, All-before go_on xs)
  | inr fail ↦ rw fail tt
]

pub All-append {ℓ} : (P : Ptr → Type ℓ) (xs ys : List Ptr) → All P (xs ++ ys) → All P xs × All P ys
All-append P [] ys h = (tt, h)
All-append P (x ∷ xs) ys h = ((h.0, (All-append P xs ys h.1).0), (All-append P xs ys h.1).1)

pub append-All {ℓ} : (P : Ptr → Type ℓ) (xs ys : List Ptr) → All P xs → All P ys → All P (xs ++ ys)
append-All P [] ys h k = k
append-All P (x ∷ xs) ys h k = (h.0, append-All P xs ys h.1 k)

-- The traversal stops at an address where the test fails.
pub after_stops :
    {A : Type 0} (go_on : A → Bool) (xs : List A) {b : A} {rest : List A}
    → after go_on xs ≡ b ∷ rest
    → go_on b ≡ false
unfolding after
after_stops go_on [] e = cc
after_stops go_on (x ∷ xs) {b} {rest} e = elim (Bool-cases (go_on x)) [
  | inl pass ↦
      after_stops go_on xs (subst (λ c. (if c then after go_on xs else x ∷ xs) ≡ b ∷ rest) pass e)
  | inr stops ↦
      let here : x ∷ xs ≡ b ∷ rest =
        subst (λ c. (if c then after go_on xs else x ∷ xs) ≡ b ∷ rest) stops e in
      let same : x ≡ b = cc in subst (λ y. go_on y ≡ false) same stops
]
