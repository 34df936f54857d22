-- ===== src/Base/Chain.antt =====
-- Singly linked lists in memory: what a chain of `next` pointers stands for, the traversal that the
-- kernel's list code shares, and what a write of one pointer does to a chain.
pub mod Split
pub mod Write
use Prim.Native.Nat.{ℕ, zero, suc, ◌<◌}
use mathlib.Core.Path.{◌≡◌, refl}
use mathlib.Core.Logic.{◌≢◌}
use mathlib.Core.Bool.{Bool, true, false, ◌||◌}
use mathlib.Core.Option.{Option, none, some}
use mathlib.Core.List.{List, [], ◌∷◌, ◌++◌}
use native.Mathlib.Omega.{arith}
use os_team.Base.Tests.{◌==◌, if◌then◌else◌}
use os_team.Base.Lists.{length}

-- An address. NULL is 0.
abbrev pub Ptr : Type 0
Ptr = ℕ

abbrev pub null : Ptr
null = 0

-- One field of the records in memory, after a write at an address.
abbrev pub update {ℓ} : {A : Type ℓ} → (Ptr → A) → Ptr → A → Ptr → A
update f p v q = if q == p then v else f q

abbrev pub has : Ptr → List Ptr → Bool
has a [] = false
has a (x ∷ xs) = (a == x) || has a xs

-- From `p` the `next` pointers lead through the distinct addresses of the list to NULL.
abbrev pub Chain : (Ptr → Ptr) → Ptr → List Ptr → Type 0
Chain next p [] = p ≡ null
Chain next p (x ∷ xs) = (p ≡ x) × (x ≢ null) × (has x xs ≡ false) × Chain next (next x) xs

-- Every address of the list satisfies `P`.
abbrev pub All {ℓ κ} : {A : Type ℓ} → (A → Type κ) → List A → Type κ
All P [] = Unit
All P (x ∷ xs) = P x × All P xs

abbrev pub last_or : Ptr → List Ptr → Ptr
last_or d [] = d
last_or d (x ∷ xs) = last_or x xs

abbrev pub head_or : Ptr → List Ptr → Ptr
head_or d [] = d
head_or d (x ∷ _) = x

-- The addresses that a traversal passes while `go_on` holds, and those from where it stops.
unfoldable pub before {ℓ} : {A : Type ℓ} → (A → Bool) → List A → List A
before go_on [] = []
before go_on (x ∷ xs) = if go_on x then x ∷ before go_on xs else []

unfoldable pub after {ℓ} : {A : Type ℓ} → (A → Bool) → List A → List A
after go_on [] = []
after go_on (x ∷ xs) = if go_on x then after go_on xs else x ∷ xs

-- The hand-over-hand traversal, `while( curr != NULL && go_on(curr) )`: the final `prev` and `curr`.
-- `none` means that the fuel ran out.
unfoldable pub walk : (Ptr → Ptr) → (Ptr → Bool) → ℕ → (prev curr : Ptr) → Option (Ptr × Ptr)
walk next go_on zero prev curr = none
walk next go_on (suc k) prev curr =
    let rest = walk next go_on k curr (next curr) in
    if curr == null then some (prev, curr) else if go_on curr then rest else some (prev, curr)
