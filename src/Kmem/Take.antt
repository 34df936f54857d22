-- ===== src/Kmem/Take.antt =====
-- The second half of `km_page_alloc`, on the block that the traversal found.
use mathlib.Core.Path.{subst}
use os_team.Base.{
  ℕ, ◌+◌, ◌-◌, ◌*◌, ◌%◌, ◌^◌, ◌≤◌, ◌<◌, ◌≡◌, refl, sym, ap, ◌∙◌, inl, inr, Bool, true, false, ◌==◌,
  not, ◌&&◌, ◌||◌, List, ◌∷◌, ◌++◌, arith, Bool-cases, eq_of_==,
}
use os_team.Base.Chain.{Ptr, null, update, has, Chain, All, last_or}
use os_team.Base.Chain.Write.{has-append, Chain-push, Chain-suffix, Chain-apart, Chain-update}
use os_team.Kmem.State.{Km, page_size, p2b, set_link}
use os_team.Kmem.Pages.{take_pages}
use os_team.Kmem.Blocks.{
  end, Spaced, between, between_bounds, covers, total, Agree, covers-append, total-append,
  covers-Agree, total-Agree, Spaced-Agree, covers-low, prefix_below, Agree-refl, Agree-update,
  has-covers, has-cons, has-tail, Spaced-suffix, Spaced-prefix, Spaced-swap, total-fits,
}
use os_team.Kmem.Pool.{Pool, set_link-pages_of, set_link-Pool}

-- The outcome of an allocation from the free list `xs`: `block` was the first one with `count` pages or
-- more, and its first `count` pages are no longer free. Nothing else has become free or is lost.
pub record Allocated (k : Km) (xs : List Ptr) (count : ℕ) (block : Ptr) (k' : Km) : Type 0 where
  pub front : List Ptr
  pub rest : List Ptr
  pub split : xs ≡ front ++ block ∷ rest
  pub small : All (λ x. k.pages_of x < count) front
  pub large : count ≤ k.pages_of block
  pub blocks : List Ptr
  pub pool : Pool k' blocks
  pub free :
      (a : ℕ)
      → covers k'.pages_of blocks a
        ≡ (covers k.pages_of xs a && not (between block (block + count * page_size) a))

or_false : (b : Bool) → (b || false) ≡ b
or_false true = refl
or_false false = refl

and_true : (b : Bool) → b ≡ (b && true)
and_true true = refl
and_true false = refl

module _ {k : Km} (pre : List Ptr) (b : Ptr) (rest : List Ptr) (pool : Pool k (pre ++ b ∷ rest))
    (count : ℕ) (some_pages : 1 ≤ count) where
  tail-Spaced : Spaced k.pages_of (b ∷ rest)
  tail-Spaced = Spaced-suffix k.pages_of pre (b ∷ rest) pool.spaced

  size : k.n_pages ≡ total k.pages_of pre + (k.pages_of b + total k.pages_of rest)
  size = pool.count ∙ total-append k.pages_of pre (b ∷ rest)

  word : k.n_pages < 2 ^ 32
  word = omega (arith, pool.count, total-fits k.pages_of (pre ++ b ∷ rest) pool.spaced)

  left : ℕ
  left = (k.n_pages + 2 ^ 32 - count) % 2 ^ 32

  tail-Chain : Chain k.next_of b (b ∷ rest)
  tail-Chain = Chain-suffix k.next_of k.free_pages pre (b ∷ rest) pool.chain

  -- What lies in the block is neither in the blocks before nor in those behind.
  outside :
      (a : ℕ)
      → between b (end k.pages_of b) a ≡ true
      → (covers k.pages_of pre a ≡ false) × (covers k.pages_of rest a ≡ false)
  outside a inside =
      let bounds = between_bounds b (end k.pages_of b) a inside in
      (
        elim (Bool-cases (covers k.pages_of pre a)) [
          | inl yes' ↦
              absurd
                (omega (arith, bounds.0, prefix_below k.pages_of pre (b ∷ rest) a pool.spaced yes'))
          | inr no' ↦ no'
        ],
        elim (Bool-cases (covers k.pages_of rest a)) [
          | inl yes' ↦ absurd (
              omega
                (arith, bounds.1, tail-Spaced.1, covers-low k.pages_of rest a tail-Spaced.2 yes'))
          | inr no' ↦ no'
        ],
      )

  apart : All (λ x. has x rest ≡ false) pre
  apart = has-tail b rest pre (Chain-apart k.next_of k.free_pages pre (b ∷ rest) pool.chain)

  exact-Pool :
      k.pages_of b ≡ count
      → Pool (record (set_link k (last_or null pre) (k.next_of b)) { n_pages = left }) (pre ++ rest)
  unfolding left
  exact-Pool e =
      set_link-Pool k pre (b ∷ rest) rest (k.next_of b) left pool.chain tail-Chain.3 apart
        (Spaced-swap k.pages_of k.pages_of pre (b ∷ rest) rest (Agree-refl k.pages_of pre)
          pool.spaced (omega (arith, tail-Spaced.1)) tail-Spaced.2)
        (omega (arith, size, word, total-append k.pages_of pre rest)) pool.ready

  exact-free :
      (a : ℕ)
      → k.pages_of b ≡ count
      → covers k.pages_of (pre ++ rest) a
        ≡ (covers k.pages_of (pre ++ b ∷ rest) a && not (between b (b + count * page_size) a))
  exact-free a e =
      let area : between b (b + count * page_size) a ≡ between b (end k.pages_of b) a =
        ap (λ n. between b (b + n * page_size) a) (sym e) in
      rw (covers-append k.pages_of pre rest a, covers-append k.pages_of pre (b ∷ rest) a, area)
        (elim (Bool-cases (between b (end k.pages_of b) a)) [
          | inl inside ↦ rw (inside, (outside a inside).0, (outside a inside).1)
          | inr apart' ↦ rw apart' (and_true (covers k.pages_of pre a || covers k.pages_of rest a))
        ])

  -- The rest of the block, when it has more pages than are taken.
  fragment : Ptr
  fragment = b + count * page_size

  carved : Km
  carved = record k {
    pages_of = update k.pages_of fragment (k.pages_of b - count);
    next_of = update k.next_of fragment (k.next_of b);
  }

  module _ (more : count < k.pages_of b) where
    fragment-free :
        (covers k.pages_of pre fragment ≡ false) × (covers k.pages_of rest fragment ≡ false)
    unfolding fragment
    fragment-free = outside fragment (ground (arith, more, some_pages))

    out_pre : has fragment pre ≡ false
    out_pre =
        has-covers k.pages_of fragment pre (Spaced-prefix k.pages_of pre (b ∷ rest) pool.spaced)
          fragment-free.0

    out_rest : has fragment rest ≡ false
    out_rest = has-covers k.pages_of fragment rest tail-Spaced.2 fragment-free.1

    out_all : has fragment (pre ++ b ∷ rest) ≡ false
    unfolding fragment
    out_all =
        let ne : (fragment == b) ≡ false = ground (arith, some_pages) in
        has-append fragment pre (b ∷ rest) ∙ rw (out_pre, ne, out_rest)

    now : carved.pages_of fragment ≡ k.pages_of b - count
    unfolding carved fragment
    now = ground arith

    carved-Spaced : Spaced carved.pages_of (fragment ∷ rest)
    unfolding carved fragment
    carved-Spaced = (
      omega (arith, now, more),
      omega (arith, now, more, tail-Spaced.1),
      Spaced-Agree carved.pages_of k.pages_of rest
          (Agree-update k.pages_of fragment (k.pages_of b - count) rest out_rest) tail-Spaced.2,
    )

    carved-Pool :
        Pool
          (record (set_link carved (last_or null pre) fragment) { n_pages = left })
          (pre ++ fragment ∷ rest)
    unfolding left carved fragment
    carved-Pool =
        set_link-Pool carved pre (b ∷ rest) (fragment ∷ rest) fragment left
          (Chain-update k.next_of fragment (k.next_of b) k.free_pages (pre ++ b ∷ rest) out_all
            pool.chain)
          (Chain-push k.next_of fragment (k.next_of b) rest (λ e. omega (arith, e, some_pages))
            out_rest tail-Chain.3)
          (has-cons fragment rest pre out_pre apart)
          (Spaced-swap carved.pages_of k.pages_of pre (b ∷ rest) (fragment ∷ rest)
            (Agree-update k.pages_of fragment (k.pages_of b - count) pre out_pre) pool.spaced
            (omega arith) carved-Spaced)
          (omega (
            arith,
            size,
            word,
            more,
            now,
            total-append carved.pages_of pre (fragment ∷ rest),
            total-Agree carved.pages_of k.pages_of pre
                (Agree-update k.pages_of fragment (k.pages_of b - count) pre out_pre),
            total-Agree carved.pages_of k.pages_of rest
                (Agree-update k.pages_of fragment (k.pages_of b - count) rest out_rest),
          ))
          pool.ready

    fragment-end : end carved.pages_of fragment ≡ end k.pages_of b
    unfolding fragment
    fragment-end = omega (arith, now, more)

    Agree-pre : Agree carved.pages_of k.pages_of pre
    unfolding carved
    Agree-pre = Agree-update k.pages_of fragment (k.pages_of b - count) pre out_pre

    Agree-rest : Agree carved.pages_of k.pages_of rest
    unfolding carved
    Agree-rest = Agree-update k.pages_of fragment (k.pages_of b - count) rest out_rest

    carved-free :
        (a : ℕ)
        → covers carved.pages_of (pre ++ fragment ∷ rest) a
          ≡ (covers k.pages_of (pre ++ b ∷ rest) a && not (between b (b + count * page_size) a))
    unfolding fragment
    carved-free a =
        rw
          (
            covers-append carved.pages_of pre (fragment ∷ rest) a,
            covers-append k.pages_of pre (b ∷ rest) a,
            covers-Agree carved.pages_of k.pages_of pre a Agree-pre,
            covers-Agree carved.pages_of k.pages_of rest a Agree-rest,
            fragment-end,
          )
          (elim (Bool-cases (between b (end k.pages_of b) a)) [
            | inl inside ↦
                let bounds = between_bounds b (end k.pages_of b) a inside in
                let rest_of : between (b + count * page_size) (end k.pages_of b) a
                    ≡ not (between b (b + count * page_size) a) =
                  ground (arith, bounds) in
                rw (inside, (outside a inside).0, (outside a inside).1) (or_false _ ∙ rest_of)
            | inr apart' ↦
                let not_rest : between (b + count * page_size) (end k.pages_of b) a ≡ false =
                  ground (arith, more) in
                let not_area : between b (b + count * page_size) a ≡ false = ground (arith, more) in
                rw (apart', not_rest, not_area)
                  (and_true (covers k.pages_of pre a || covers k.pages_of rest a))
          ])

  -- The block that the traversal found, taken.
  pub taken-Allocated :
      All (λ x. k.pages_of x < count) pre
      → count ≤ k.pages_of b
      → Allocated k (pre ++ b ∷ rest) count b (take_pages count (last_or null pre) b k)
  unfolding take_pages
  taken-Allocated small large = elim (Bool-cases (k.pages_of b == count)) [
    | inl whole ↦
        let e : k.pages_of b ≡ count = eq_of_== (k.pages_of b) count whole in
        rw whole (record {
          front = pre;
          rest = rest;
          split = refl;
          small = small;
          large = large;
          blocks = pre ++ rest;
          pool = unfold left in exact-Pool e;
          free = λ a.
              subst
                (λ f. covers f (pre ++ rest) a ≡ (
                  covers k.pages_of (pre ++ b ∷ rest) a
                  && not (between b (b + count * page_size) a)))
                (sym (set_link-pages_of k (last_or null pre) (k.next_of b))) (exact-free a e);
        })
    | inr part ↦
        let more : count < k.pages_of b = ground arith in
        let word' : (b + p2b count) % 2 ^ 32 ≡ b + count * page_size =
          omega (arith, tail-Spaced.1, total-fits k.pages_of rest tail-Spaced.2, more) in
        rw (part, word')
          (record {
            front = pre;
            rest = rest;
            split = refl;
            small = small;
            large = large;
            blocks = pre ++ fragment ∷ rest;
            pool = unfold left carved fragment in carved-Pool more;
            free =
                unfold carved fragment in
                λ a.
                  subst
                    (λ f. covers f (pre ++ fragment ∷ rest) a ≡ (
                      covers k.pages_of (pre ++ b ∷ rest) a
                      && not (between b (b + count * page_size) a)))
                    (sym (set_link-pages_of carved (last_or null pre) fragment))
                    (carved-free more a);
          })
  ]
