-- ===== src/Kmem/Blocks.antt =====
-- Lists of free blocks: in ascending order, apart, and what addresses they cover.
use os_team.Base.{
  ℕ, ◌+◌, ◌*◌, ◌^◌, ◌≤◌, ◌<◌, ◌≡◌, refl, inl, inr, Bool, true, false, ltb, leb, ◌==◌, ◌&&◌, ◌||◌,
  List, [], ◌∷◌, ◌++◌, length, arith, Bool-cases,
}
use os_team.Base.Chain.{Ptr, update, has, All, head_or}
use os_team.Kmem.State.{page_size}

-- The end of memory.
abbrev pub top : ℕ
top = 2 ^ 32

-- The end of a block.
abbrev pub end : (Ptr → ℕ) → Ptr → ℕ
end pages b = b + pages b * page_size

-- Each block has a page or more, and ends at or before the next one.
abbrev pub Spaced : (Ptr → ℕ) → List Ptr → Type 0
Spaced pages [] = Unit
Spaced pages (x ∷ xs) = (1 ≤ pages x) × (end pages x ≤ head_or top xs) × Spaced pages xs

abbrev pub between : (low high a : ℕ) → Bool
between low high a = leb low a && ltb a high

-- The address is in a block of the list.
abbrev pub covers : (Ptr → ℕ) → List Ptr → ℕ → Bool
covers pages [] a = false
covers pages (x ∷ xs) a = between x (end pages x) a || covers pages xs a

abbrev pub total : (Ptr → ℕ) → List Ptr → ℕ
total pages [] = 0
total pages (x ∷ xs) = pages x + total pages xs

-- The two functions agree on the list.
abbrev pub Agree : (Ptr → ℕ) → (Ptr → ℕ) → List Ptr → Type 0
Agree f g xs = All (λ x. f x ≡ g x) xs

pub covers-append :
    (pages : Ptr → ℕ) (xs ys : List Ptr) (a : ℕ)
    → covers pages (xs ++ ys) a ≡ (covers pages xs a || covers pages ys a)
covers-append pages [] ys a = refl
covers-append pages (x ∷ xs) ys a = ground (arith, covers-append pages xs ys a)

pub total-append :
    (pages : Ptr → ℕ) (xs ys : List Ptr) → total pages (xs ++ ys) ≡ total pages xs + total pages ys
total-append pages [] ys = omega arith
total-append pages (x ∷ xs) ys = omega (arith, total-append pages xs ys)

pub covers-Agree :
    (f g : Ptr → ℕ) (xs : List Ptr) (a : ℕ) → Agree f g xs → covers f xs a ≡ covers g xs a
covers-Agree f g [] a h = refl
covers-Agree f g (x ∷ xs) a h = ground (arith, h.0, covers-Agree f g xs a h.1)

pub total-Agree : (f g : Ptr → ℕ) (xs : List Ptr) → Agree f g xs → total f xs ≡ total g xs
total-Agree f g [] h = refl
total-Agree f g (x ∷ xs) h = omega (arith, h.0, total-Agree f g xs h.1)

pub Spaced-Agree : (f g : Ptr → ℕ) (xs : List Ptr) → Agree f g xs → Spaced g xs → Spaced f xs
Spaced-Agree f g [] h s = tt
Spaced-Agree f g (x ∷ xs) h s =
    (omega (arith, h.0, s.0), omega (arith, h.0, s.1), Spaced-Agree f g xs h.1 s.2)

pub length-total : (pages : Ptr → ℕ) (xs : List Ptr) → Spaced pages xs → length xs ≤ total pages xs
length-total pages [] s = omega arith
length-total pages (x ∷ xs) s = omega (arith, s.0, length-total pages xs s.2)

pub between_bounds : (low high a : ℕ) → between low high a ≡ true → (low ≤ a) × (a < high)
between_bounds low high a h = (ground arith, ground arith)

or_right : (b c : Bool) → b ≡ false → (b || c) ≡ true → c ≡ true
or_right true c e h = cc
or_right false c e h = h

-- What is covered lies at or above the first block.
pub covers-low :
    (pages : Ptr → ℕ) (xs : List Ptr) (a : ℕ)
    → Spaced pages xs
    → covers pages xs a ≡ true
    → head_or top xs ≤ a
covers-low pages [] a s h = cc
covers-low pages (x ∷ []) a s h = ground (arith, s.0, s.1)
covers-low pages (x ∷ y ∷ xs) a s h = ground (arith, s.0, s.1, covers-low pages (y ∷ xs) a s.2)

-- The blocks of a prefix end at or before what follows.
pub prefix_below :
    (pages : Ptr → ℕ) (xs ys : List Ptr) (a : ℕ)
    → Spaced pages (xs ++ ys)
    → covers pages xs a ≡ true
    → a < head_or top ys
prefix_below pages [] ys a s h = cc
prefix_below pages (x ∷ []) ys a s h = ground (arith, s.1)
prefix_below pages (x ∷ y ∷ xs) ys a s h =
    let next : covers pages (y ∷ xs) y ≡ true = ground (arith, s.2.0) in
    let low : y < head_or top ys = prefix_below pages (y ∷ xs) ys y s.2 next in
    elim (Bool-cases (between x (end pages x) a)) [
      | inl inside ↦ omega (arith, s.1, low, (between_bounds x (end pages x) a inside).1)
      | inr outside ↦
          prefix_below pages (y ∷ xs) ys a s.2
            (or_right (between x (end pages x) a) (covers pages (y ∷ xs) a) outside h)
    ]

pub Spaced-suffix : (pages : Ptr → ℕ) (xs ys : List Ptr) → Spaced pages (xs ++ ys) → Spaced pages ys
Spaced-suffix pages [] ys s = s
Spaced-suffix pages (x ∷ xs) ys s = Spaced-suffix pages xs ys s.2

-- Other blocks may follow a prefix, if they do not begin earlier.
pub Spaced-swap :
    (f g : Ptr → ℕ) (xs ys zs : List Ptr)
    → Agree f g xs
    → Spaced g (xs ++ ys)
    → head_or top ys ≤ head_or top zs
    → Spaced f zs
    → Spaced f (xs ++ zs)
Spaced-swap f g [] ys zs h s le t = t
Spaced-swap f g (x ∷ []) ys zs h s le t = (omega (arith, h.0, s.0), omega (arith, h.0, s.1), t)
Spaced-swap f g (x ∷ y ∷ xs) ys zs h s le t =
    (omega (arith, h.0, s.0), omega (arith, h.0, s.1), Spaced-swap f g (y ∷ xs) ys zs h.1 s.2 le t)

-- The blocks lie below the end of memory.
pub total-fits :
    (pages : Ptr → ℕ) (xs : List Ptr)
    → Spaced pages xs
    → total pages xs * page_size + head_or top xs ≤ top
total-fits pages [] s = omega arith
total-fits pages (x ∷ xs) s = omega (arith, s.1, total-fits pages xs s.2)

pub Agree-refl : (f : Ptr → ℕ) (xs : List Ptr) → Agree f f xs
Agree-refl f [] = tt
Agree-refl f (x ∷ xs) = (refl, Agree-refl f xs)

pub Agree-update :
    (f : Ptr → ℕ) (a v : ℕ) (xs : List Ptr) → has a xs ≡ false → Agree (update f a v) f xs
Agree-update f a v [] out = tt
Agree-update f a v (x ∷ xs) out = (ground arith, Agree-update f a v xs (ground arith))

-- The first address of each block is covered.
pub has-covers :
    (pages : Ptr → ℕ) (a : Ptr) (xs : List Ptr)
    → Spaced pages xs
    → covers pages xs a ≡ false
    → has a xs ≡ false
has-covers pages a [] s h = refl
has-covers pages a (x ∷ xs) s h =
    let ne : (a == x) ≡ false = ground (arith, s.0) in
    rw ne (has-covers pages a xs s.2 (ground arith))

pub has-cons :
    (a : Ptr) (ys xs : List Ptr)
    → has a xs ≡ false
    → All (λ x. has x ys ≡ false) xs
    → All (λ x. has x (a ∷ ys) ≡ false) xs
has-cons a ys [] out h = tt
has-cons a ys (x ∷ xs) out h = (ground (arith, h.0), has-cons a ys xs (ground arith) h.1)

pub has-tail :
    (b : Ptr) (ys xs : List Ptr)
    → All (λ x. has x (b ∷ ys) ≡ false) xs
    → All (λ x. has x ys ≡ false) xs
has-tail b ys [] h = tt
has-tail b ys (x ∷ xs) h = (ground (arith, h.0), has-tail b ys xs h.1)

pub Spaced-prefix : (pages : Ptr → ℕ) (xs ys : List Ptr) → Spaced pages (xs ++ ys) → Spaced pages xs
Spaced-prefix pages [] ys s = tt
Spaced-prefix pages (x ∷ []) ys s = (s.0, omega (arith, s.1, total-fits pages ys s.2), tt)
Spaced-prefix pages (x ∷ y ∷ xs) ys s = (s.0, s.1, Spaced-prefix pages (y ∷ xs) ys s.2)
