-- ===== src/Kmem/Pool.antt =====
-- The free list of kernel/kmem.c as an invariant, and the traversal and relinking of it.
use mathlib.Core.Path.{subst}
use os_team.Base.{
  ℕ, ◌+◌, ◌<◌, ◌≡◌, ◌≢◌, sym, ◌∙◌, Bool, true, false, ◌==◌, List, [], ◌∷◌, ◌++◌, length, arith, ok,
}
use os_team.Base.Chain.{Ptr, null, update, has, Chain, All, last_or, head_or, before, after}
use os_team.Base.Chain.Split.{walk_lem, All-append}
use os_team.Base.Chain.Write.{Chain-relink, Chain-ne_null}
use os_team.Kmem.State.{Km, set_link, seek}
use os_team.Kmem.Blocks.{Spaced, total, length-total}

-- The free list has these blocks in ascending order, apart from each other, and `n_pages` counts them.
pub record Pool (k : Km) (xs : List Ptr) : Type 0 where
  pub chain : Chain k.next_of k.free_pages xs
  pub spaced : Spaced k.pages_of xs
  pub count : k.n_pages ≡ total k.pages_of xs
  pub ready : k.initialized ≡ true

pub seek-found :
    (k : Km) (xs : List Ptr) (go_on : Ptr → Bool)
    → Pool k xs
    → seek go_on k ≡ ok (last_or null (before go_on xs), head_or null (after go_on xs)) k
unfolding seek
seek-found k xs go_on pool =
    let enough : length xs < k.n_pages + 1 =
      omega (arith, length-total k.pages_of xs pool.spaced, pool.count) in
    ground (arith, walk_lem k.next_of go_on (k.n_pages + 1) null k.free_pages xs pool.chain enough)

pub last_ne_null :
    (a : Ptr) (as' : List Ptr) → All (λ x. x ≢ null) (a ∷ as') → (last_or a as' == null) ≡ false
last_ne_null a [] h = ground (arith, h.0)
last_ne_null a (b ∷ bs) h = last_ne_null b bs h.1

pub set_link-inner :
    (k : Km) (p q : Ptr)
    → (p == null) ≡ false
    → set_link k p q ≡ record k { next_of = update k.next_of p q }
unfolding set_link
set_link-inner k p q e = rw e

-- The write through `pointer` exchanges what follows the traversed prefix.
pub set_link-Chain :
    (k : Km) (xs ys zs : List Ptr) (q : Ptr)
    → Chain k.next_of k.free_pages (xs ++ ys)
    → Chain k.next_of q zs
    → All (λ x. has x zs ≡ false) xs
    → Chain
        (set_link k (last_or null xs) q).next_of
        (set_link k (last_or null xs) q).free_pages
        (xs ++ zs)
unfolding set_link
set_link-Chain k [] ys zs q c d out = d
set_link-Chain k (a ∷ as') ys zs q c d out =
    let ne = Chain-ne_null k.next_of k.free_pages (a ∷ (as' ++ ys)) c in
    let some_prev : (last_or a as' == null) ≡ false =
      last_ne_null a as' (All-append (λ x. x ≢ null) (a ∷ as') ys ne).0 in
    subst (λ (k' : Km). Chain k'.next_of k'.free_pages (a ∷ (as' ++ zs)))
      (sym (set_link-inner k (last_or a as') q some_prev))
      (Chain-relink k.next_of q k.free_pages a as' ys zs c d out)

pub set_link-pages_of : (k : Km) (p q : Ptr) → (set_link k p q).pages_of ≡ k.pages_of
unfolding set_link
set_link-pages_of k p q = ground arith

set_link-initialized : (k : Km) (p q : Ptr) → (set_link k p q).initialized ≡ k.initialized
unfolding set_link
set_link-initialized k p q = ground arith

-- The free list after the write through `pointer`, with its count.
pub set_link-Pool :
    (k : Km) (xs ys zs : List Ptr) (q n : ℕ)
    → Chain k.next_of k.free_pages (xs ++ ys)
    → Chain k.next_of q zs
    → All (λ x. has x zs ≡ false) xs
    → Spaced k.pages_of (xs ++ zs)
    → n ≡ total k.pages_of (xs ++ zs)
    → k.initialized ≡ true
    → Pool (record (set_link k (last_or null xs) q) { n_pages = n }) (xs ++ zs)
set_link-Pool k xs ys zs q n c d out spaced count ready =
    let same = sym (set_link-pages_of k (last_or null xs) q) in
    record {
      chain = set_link-Chain k xs ys zs q c d out;
      spaced = subst (λ f. Spaced f (xs ++ zs)) same spaced;
      count = subst (λ f. n ≡ total f (xs ++ zs)) same count;
      ready = set_link-initialized k (last_or null xs) q ∙ ready;
    }
