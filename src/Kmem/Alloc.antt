-- ===== src/Kmem/Alloc.antt =====
-- `km_page_alloc` of kernel/kmem.c on a well-formed free list.
use mathlib.Core.Path.{subst}
use mathlib.Core.List.{append-nil}
use os_team.Base.{
  ℕ, ◌≤◌, ◌<◌, ◌≡◌, ◌≢◌, refl, sym, ap, ◌∙◌, ◌⊎◌, inl, inr, true, false, ◌==◌, ltb, if◌then◌else◌,
  List, [], ◌∷◌, ◌++◌, arith, Returns, returns, Cmd, assert, ◌>>=◌, pure, put, ◌>>◌,
}
use os_team.Base.Chain.{Ptr, null, All, last_or, head_or, before, after}
use os_team.Base.Chain.Split.{after_stops, before-append-after, All-before, All-append}
use os_team.Base.Chain.Write.{Chain-ne_null}
use os_team.Kmem.State.{Km, seek}
use os_team.Kmem.Pages.{take_pages, page_alloc}
use os_team.Kmem.Pool.{Pool, seek-found}
use os_team.Kmem.Take.{Allocated, taken-Allocated}

All-small :
    (pages : Ptr → ℕ) (count : ℕ) (xs : List Ptr)
    → All (λ x. ltb (pages x) count ≡ true) xs
    → All (λ x. pages x < count) xs
All-small pages count [] h = tt
All-small pages count (x ∷ xs) h = (ground (arith, h.0), All-small pages count xs h.1)

-- The outcome of `km_page_alloc`: NULL, with nothing changed, when every free block is too small, or a
-- block.
abbrev pub Allocates : Km → List Ptr → ℕ → Ptr → Km → Type 0
Allocates k xs count block k' =
    ((block ≡ null) × (k' ≡ k) × All (λ x. k.pages_of x < count) xs)
    ⊎ ((block ≢ null) × Allocated k xs count block k')

-- The end of `km_page_alloc`, behind the traversal.
by_rest :
    (k : Km) (xs : List Ptr) (count : ℕ) (rest : List Ptr)
    → Pool k xs
    → 1 ≤ count
    → after (λ b. ltb (k.pages_of b) count) xs ≡ rest
    → Returns (Allocates k xs count) (
        (if head_or null rest == null
            then pure null
            else (put (
                  take_pages count
                    (last_or null (before (λ b. ltb (k.pages_of b) count) xs))
                    (head_or null rest)
                    k)
                >> pure (head_or null rest)))
          k)
by_rest k xs count [] pool some_pages e =
    let whole : before (λ b. ltb (k.pages_of b) count) xs ≡ xs =
      sym (append-nil _)
      ∙ ap (λ l. before (λ b. ltb (k.pages_of b) count) xs ++ l) (sym e)
      ∙ before-append-after (λ b. ltb (k.pages_of b) count) xs in
    let small =
      subst (All (λ x. ltb (k.pages_of x) count ≡ true)) whole
        (All-before (λ b. ltb (k.pages_of b) count) xs) in
    returns (inl (refl, refl, All-small k.pages_of count xs small))
by_rest k xs count (b ∷ rest) pool some_pages e =
    let pre = before (λ b. ltb (k.pages_of b) count) xs in
    let split : xs ≡ pre ++ b ∷ rest =
      sym (before-append-after (λ b. ltb (k.pages_of b) count) xs) ∙ ap (λ l. pre ++ l) e in
    let pool' = subst (Pool k) split pool in
    let large : count ≤ k.pages_of b =
      ground (arith, after_stops (λ b. ltb (k.pages_of b) count) xs e) in
    let ne : b ≢ null =
      (All-append (λ x. x ≢ null) pre (b ∷ rest)
        (Chain-ne_null k.next_of k.free_pages (pre ++ b ∷ rest) pool'.chain)).1.0 in
    let some_block : (b == null) ≡ false = ground arith in
    let small = All-small k.pages_of count pre (All-before (λ b. ltb (k.pages_of b) count) xs) in
    rw some_block (
      returns (
        inr (
          ne,
          subst (λ l. Allocated k l count b (take_pages count (last_or null pre) b k)) (sym split)
              (taken-Allocated pre b rest pool' count some_pages small large),
        )))

-- `km_page_alloc` behind its assertion.
search : ℕ → Km → Cmd Km Ptr
search count k =
    if ltb count 1
    then pure null
    else (seek (λ b. ltb (k.pages_of b) count) >>= λ found.
        if found.1 == null
        then pure null
        else (put (take_pages count found.0 found.1 k) >> pure found.1))

-- On a well-formed free list, `km_page_alloc` of a page or more returns. If no free block is large
-- enough, the result is NULL and nothing changes. Else it is the first block that is large enough,
-- whose first `count` pages are free no longer, and every other free address stays free. The free list
-- is well formed again.
pub page_alloc-Allocates :
    (k : Km) (xs : List Ptr) (count : ℕ)
    → Pool k xs
    → 1 ≤ count
    → Returns (Allocates k xs count) (page_alloc count k)
unfolding page_alloc search
page_alloc-Allocates k xs count pool some_pages =
    let none_wanted : ltb count 1 ≡ false = ground arith in
    subst (λ b. Returns (Allocates k xs count) ((assert b >> search count k) k)) (sym pool.ready)
      (rw (none_wanted, seek-found k xs (λ b. ltb (k.pages_of b) count) pool)
        (by_rest k xs count (after (λ b. ltb (k.pages_of b) count) xs) pool some_pages refl))
