-- ===== src/Kmem/RoundTrip.antt =====
-- Pages that are allocated and given back.
use mathlib.Core.Path.{subst}
use os_team.Base.{
  ℕ, ◌+◌, ◌*◌, ◌≤◌, ◌≡◌, refl, sym, ap, ◌∙◌, ◌⊎◌, inl, inr, Bool, true, false, not, ◌&&◌, ◌||◌,
  List, ◌∷◌, arith, Returns, mono,
}
use os_team.Base.Chain.{Ptr, null}
use os_team.Kmem.State.{Km, page_size}
use os_team.Kmem.Pages.{page_alloc, page_free_multi}
use os_team.Kmem.Blocks.{
  top, end, Spaced, between, between_bounds, covers, covers-append, Spaced-suffix, total-fits,
}
use os_team.Kmem.Pool.{Pool}
use os_team.Kmem.Take.{Allocated}
use os_team.Kmem.Alloc.{Allocates, page_alloc-Allocates}
use os_team.Kmem.Placed.{InUse}
use os_team.Kmem.Release.{page_free_multi-Released}

-- The free list covers what it covered at first.
abbrev pub Restored : Km → List Ptr → Unit {0} → Km → Type 0
Restored k xs _ k' =
    (blocks : List Ptr) × Pool k' blocks
    × ((a : ℕ) → covers k'.pages_of blocks a ≡ covers k.pages_of xs a)

or_true : (b : Bool) → (b || true) ≡ true
or_true true = refl
or_true false = refl

and_false : (b : Bool) → (b && false) ≡ false
and_false true = refl
and_false false = refl

restore : (b c : Bool) → (c ≡ true → b ≡ true) → ((b && not c) || c) ≡ b
restore b true h = or_true (b && false) ∙ sym (h refl)
restore true false h = refl
restore false false h = refl

module _ {k : Km} {xs : List Ptr} (pool : Pool k xs) {count : ℕ} {block : Ptr} {k' : Km}
    (got : Allocated k xs count block k') where
  block-Spaced : Spaced k.pages_of (block ∷ got.rest)
  block-Spaced =
      Spaced-suffix k.pages_of got.front (block ∷ got.rest)
        (subst (Spaced k.pages_of) got.split pool.spaced)

  inside : block + count * page_size ≤ top
  inside = omega (arith, got.large, block-Spaced.1, total-fits k.pages_of got.rest block-Spaced.2)

  was_free :
      (a : ℕ) → between block (block + count * page_size) a ≡ true → covers k.pages_of xs a ≡ true
  was_free a h =
      let bounds = between_bounds block (block + count * page_size) a h in
      let in_block : between block (end k.pages_of block) a ≡ true =
        ground (arith, bounds, got.large) in
      ap (λ l. covers k.pages_of l a) got.split
      ∙ covers-append k.pages_of got.front (block ∷ got.rest) a
      ∙ rw in_block (or_true (covers k.pages_of got.front a))

  taken : InUse k' got.blocks block count
  taken a h = got.free a ∙ rw h (and_false (covers k.pages_of xs a))

  restored :
      (a : ℕ)
      → (covers k'.pages_of got.blocks a || between block (block + count * page_size) a)
        ≡ covers k.pages_of xs a
  restored a =
      ap (λ b. b || between block (block + count * page_size) a) (got.free a)
      ∙ restore (covers k.pages_of xs a) (between block (block + count * page_size) a) (was_free a)

-- What `km_page_alloc` returns, unless it is NULL, can be given to `km_page_free_multi` with the same
-- count: that returns, with a well-formed free list that covers exactly the addresses it covered before
-- the allocation.
pub page_alloc-page_free_multi :
    (k : Km) (xs : List Ptr) (count : ℕ)
    → Pool k xs
    → 1 ≤ count
    → Returns
        (λ block k'. (block ≡ null) ⊎ Returns (Restored k xs) (page_free_multi block count k'))
        (page_alloc count k)
page_alloc-page_free_multi k xs count pool some_pages =
    mono (page_alloc-Allocates k xs count pool some_pages) given_back
  where
    given_back :
        (block : Ptr) (k' : Km)
        → Allocates k xs count block k'
        → (block ≡ null) ⊎ Returns (Restored k xs) (page_free_multi block count k')
    given_back block k' (inl h) = inl h.0
    given_back block k' (inr (ne, got)) = inr (
        mono
          (page_free_multi-Released k' got.blocks block count got.pool ne some_pages
            (inside pool got) (taken pool got))
          (λ _ k'' (ys, pool', same). (ys, pool', λ a. same a ∙ restored pool got a)))
