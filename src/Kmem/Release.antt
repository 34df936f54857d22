-- ===== src/Kmem/Release.antt =====
-- `km_page_free_multi` of kernel/kmem.c on a well-formed free list.
use mathlib.Core.Path.{subst}
use os_team.Base.{
  ℕ, ◌+◌, ◌*◌, ◌≤◌, ◌<◌, ◌≡◌, ◌≢◌, refl, sym, Bool, true, false, ◌==◌, ltb, List, [], ◌∷◌, arith,
  if◌then◌else◌, Returns, returns, Cmd, assert, ◌>>=◌, ◌>>◌, pure, put,
}
use os_team.Base.Chain.{Ptr, null, update, All, head_or, before, after}
use os_team.Base.Chain.Split.{after_stops, before-append-after, All-before}
use os_team.Kmem.State.{Km, page_size, seek}
use os_team.Kmem.Pages.{page_free_multi}
use os_team.Kmem.Blocks.{top}
use os_team.Kmem.Pool.{Pool, seek-found}
use os_team.Kmem.Placed.{Released, InUse, release, sized, sized-Pool, released}

All-low : (block : Ptr) (xs : List Ptr) → All (λ x. ltb x block ≡ true) xs → All (λ x. x < block) xs
All-low block [] h = tt
All-low block (x ∷ xs) h = (ground (arith, h.0), All-low block xs h.1)

stops_high :
    (block : Ptr) (xs suf : List Ptr)
    → block ≤ top
    → after (λ c. ltb c block) xs ≡ suf
    → block ≤ head_or top suf
stops_high block xs [] fits e = fits
stops_high block xs (y ∷ ys) fits e = ground (arith, after_stops (λ c. ltb c block) xs e)

-- `km_page_free_multi` behind its assertion.
give_back : (block : Ptr) (count : ℕ) → Km → Cmd Km (Unit {0})
give_back block count k =
    if block == null
    then pure tt
    else (put (record k { pages_of = update k.pages_of block count })
        >> (seek (λ c. ltb c block) >>= λ found.
            λ k'. put (release found.0 found.1 block count k') k'))

-- On a well-formed free list, `km_page_free_multi` of pages that are in use and lie below the end of
-- memory returns. The free addresses are those that were free and those of the pages, and the free
-- list is well formed again.
pub page_free_multi-Released :
    (k : Km) (xs : List Ptr) (block count : ℕ)
    → Pool k xs
    → block ≢ null
    → 1 ≤ count
    → block + count * page_size ≤ top
    → InUse k xs block count
    → Returns (Released k xs block count) (page_free_multi block count k)
unfolding page_free_multi give_back sized release
page_free_multi-Released k xs block count pool ne some_pages fits taken =
    let some_block : (block == null) ≡ false = ground arith in
    let go_on : Ptr → Bool = λ c. ltb c block in
    subst (λ b. Returns (Released k xs block count) ((assert b >> give_back block count k) k))
      (sym pool.ready)
      (rw
        (
          some_block,
          seek-found (record k { pages_of = update k.pages_of block count }) xs go_on
              (unfold sized in sized-Pool pool block count ne some_pages fits taken),
        )
        (returns (
          released pool block count ne some_pages fits taken (before go_on xs) (after go_on xs)
            (sym (before-append-after go_on xs))
            (All-low block (before go_on xs) (All-before go_on xs))
            (stops_high block xs (after go_on xs) (omega arith) refl))))
