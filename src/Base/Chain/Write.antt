-- ===== src/Base/Chain/Write.antt =====
-- What a write of one pointer does to a chain.
use mathlib.Core.Path.{◌≡◌, refl, ap₂}
use mathlib.Core.Logic.{◌≢◌}
use mathlib.Core.Bool.{true, false, ◌||◌}
use mathlib.Core.List.{List, [], ◌∷◌, ◌++◌, map}
use native.Mathlib.Omega.{arith}
use os_team.Base.Chain.{Ptr, null, update, Chain, has, All, last_or, head_or}

pub has-append : (a : Ptr) (xs ys : List Ptr) → has a (xs ++ ys) ≡ (has a xs || has a ys)
has-append a [] ys = refl
has-append a (x ∷ xs) ys = ground (arith, has-append a xs ys)

-- A write elsewhere leaves a chain as it was.
pub Chain-update :
    (next : Ptr → Ptr) (a v p : Ptr) (xs : List Ptr)
    → has a xs ≡ false
    → Chain next p xs
    → Chain (update next a v) p xs
Chain-update next a v p [] out c = c
Chain-update next a v p (x ∷ xs) out c =
    let same : update next a v x ≡ next x = ground arith in
    (c.0, c.1, c.2, rw same (Chain-update next a v (next x) xs (ground arith) c.3))

pub Chain-head :
    (next : Ptr → Ptr) (p : Ptr) (xs : List Ptr) → Chain next p xs → p ≡ head_or null xs
Chain-head next p [] c = c
Chain-head next p (x ∷ xs) c = c.0

-- A node linked in before the chain from `p`.
pub Chain-push :
    (next : Ptr → Ptr) (n p : Ptr) (xs : List Ptr)
    → n ≢ null
    → has n xs ≡ false
    → Chain next p xs
    → Chain (update next n p) n (n ∷ xs)
Chain-push next n p xs ne out c =
    let now : update next n p n ≡ p = ground arith in
    (refl, ne, out, rw now (Chain-update next n p p xs out c))

pub map-update {ℓ} :
    {A : Type ℓ} (f : Ptr → A) (a : Ptr) (v : A) (xs : List Ptr)
    → has a xs ≡ false
    → map (update f a v) xs ≡ map f xs
map-update f a v [] out = refl
map-update f a v (x ∷ xs) out =
    let here : update f a v x ≡ f x = ground arith in
    ap₂ ◌∷◌ here (map-update f a v xs (ground arith))

has-last_or : (a : Ptr) (xs : List Ptr) → has (last_or a xs) (a ∷ xs) ≡ true
has-last_or a [] = ground arith
has-last_or a (x ∷ xs) = ground (arith, has-last_or x xs)

-- The part of a chain behind a prefix is a chain.
pub Chain-suffix :
    (next : Ptr → Ptr) (p : Ptr) (xs ys : List Ptr)
    → Chain next p (xs ++ ys)
    → Chain next (head_or null ys) ys
Chain-suffix next p [] ys c = rw (Chain-head next p ys c) at c
Chain-suffix next p (x ∷ xs) ys c = Chain-suffix next (next x) xs ys c.3

-- The addresses of a prefix do not come again.
pub Chain-apart :
    (next : Ptr → Ptr) (p : Ptr) (xs ys : List Ptr)
    → Chain next p (xs ++ ys)
    → All (λ x. has x ys ≡ false) xs
Chain-apart next p [] ys c = tt
Chain-apart next p (x ∷ xs) ys c =
    (ground (arith, has-append x xs ys, c.2), Chain-apart next (next x) xs ys c.3)

-- One write at the end of a prefix exchanges what follows it.
pub Chain-relink :
    (next : Ptr → Ptr) (q p a : Ptr) (as' xs ys : List Ptr)
    → Chain next p (a ∷ (as' ++ xs))
    → Chain next q ys
    → All (λ x. has x ys ≡ false) (a ∷ as')
    → Chain (update next (last_or a as') q) p (a ∷ (as' ++ ys))
Chain-relink next q p a [] xs ys c d out =
    let now : update next a q a ≡ q = ground arith in
    (c.0, c.1, out.0, rw now (Chain-update next a q q ys out.0 d))
Chain-relink next q p a (b ∷ bs) xs ys c d out =
    let same : update next (last_or b bs) q a ≡ next a =
      ground (arith, has-last_or b bs, has-append a (b ∷ bs) xs, c.2) in
    (
      c.0,
      c.1,
      ground (arith, has-append a (b ∷ bs) xs, has-append a (b ∷ bs) ys, c.2, out.0),
      rw same (Chain-relink next q (next a) b bs xs ys c.3 d out.1),
    )

pub Chain-ne_null :
    (next : Ptr → Ptr) (p : Ptr) (xs : List Ptr) → Chain next p xs → All (λ x. x ≢ null) xs
Chain-ne_null next p [] c = tt
Chain-ne_null next p (x ∷ xs) c = (c.1, Chain-ne_null next (next x) xs c.3)
