-- ===== src/Kmem/Placed.antt =====
-- The block that `km_page_free_multi` is given, between the free blocks before it and behind it.
use mathlib.Core.Path.{subst}
use os_team.Base.{
  ℕ, ◌+◌, ◌*◌, ◌≤◌, ◌<◌, ◌≡◌, ◌≢◌, refl, sym, ap, ◌∙◌, inl, inr, Bool, true, false, ◌||◌, List, [],
  ◌∷◌, ◌++◌, arith, Bool-cases, add32,
}
use os_team.Base.Chain.{Ptr, null, update, has, Chain, All, head_or, last_or}
use os_team.Base.Chain.Split.{All-append}
use os_team.Kmem.State.{Km, page_size}
use os_team.Kmem.Pages.{merge_prev, merge_next}
use os_team.Kmem.Blocks.{
  top, end, Spaced, between, covers, total, Agree, covers-append, total-append, covers-Agree,
  total-Agree, Spaced-Agree, Spaced-suffix, total-fits, Agree-update, has-covers,
}
use os_team.Kmem.Pool.{Pool}
use os_team.Kmem.Free.{Linked, merge_next-Linked, merge_prev-Halved}

-- The outcome of a release: the free addresses are those of `xs` and of the area.
abbrev pub Released : Km → List Ptr → Ptr → ℕ → Unit {0} → Km → Type 0
Released k xs block count _ k' =
    (blocks : List Ptr) × Pool k' blocks
    × ((a : ℕ)
        → covers k'.pages_of blocks a
          ≡ (covers k.pages_of xs a || between block (block + count * page_size) a))

-- No address of the pages is free.
abbrev pub InUse : Km → List Ptr → Ptr → ℕ → Type 0
InUse k xs block count =
    (a : ℕ) → between block (block + count * page_size) a ≡ true → covers k.pages_of xs a ≡ false

merge_next-n_pages :
    (u c : Ptr) (k : Km)
    → ((merge_next u c k).n_pages ≡ k.n_pages) × ((merge_next u c k).initialized ≡ k.initialized)
unfolding merge_next
merge_next-n_pages u c k = (ground arith, ground arith)

merge_prev-n_pages :
    (p u : Ptr) (k : Km)
    → ((merge_prev p u k).1.n_pages ≡ k.n_pages)
      × ((merge_prev p u k).1.initialized ≡ k.initialized)
unfolding merge_prev
merge_prev-n_pages p u k = (ground arith, ground arith)

-- The block fits between the blocks that begin before it and those that do not.
insert-Spaced :
    (f g : Ptr → ℕ) (pre suf : List Ptr) (block : Ptr)
    → Agree f g pre
    → Spaced g (pre ++ suf)
    → All (λ x. x < block) pre
    → covers g pre block ≡ false
    → Spaced f (block ∷ suf)
    → Spaced f (pre ++ block ∷ suf)
insert-Spaced f g [] suf block h s low out t = t
insert-Spaced f g (x ∷ []) suf block h s low out t =
    (omega (arith, h.0, s.0), omega (arith, h.0, apart), t)
  where
    apart : end g x ≤ block
    apart = ground (arith, low.0)
insert-Spaced f g (x ∷ y ∷ xs) suf block h s low out t = (
  omega (arith, h.0, s.0),
  omega (arith, h.0, s.1),
  insert-Spaced f g (y ∷ xs) suf block h.1 s.2 low.1 (ground arith) t,
)

or_left : (b c : Bool) → (b || c) ≡ false → b ≡ false
or_left true c e = cc
or_left false c e = refl

or_right' : (b c : Bool) → (b || c) ≡ false → c ≡ false
or_right' true c e = cc
or_right' false c e = e

-- A free block that begins in the area or behind it begins behind it.
head_above :
    (g : Ptr → ℕ) (suf : List Ptr) (block size : ℕ)
    → Spaced g suf
    → block ≤ head_or top suf
    → ((a : ℕ) → between block (block + size) a ≡ true → covers g suf a ≡ false)
    → block + size ≤ top
    → block + size ≤ head_or top suf
head_above g [] block size s high taken fits = fits
head_above g (y ∷ ys) block size s high taken fits =
    elim (Bool-cases (between block (block + size) y)) [
      | inr behind ↦ ground arith
      | inl inside ↦ absurd (ground (arith, taken y inside, s.0))
    ]

swap : (p b c : Bool) → (p || (b || c)) ≡ ((p || c) || b)
swap true b c = refl
swap false true true = refl
swap false true false = refl
swap false false true = refl
swap false false false = refl

-- The state behind the traversal, the merging and the count.
unfoldable pub release : (prev curr block count : ℕ) → Km → Km
release prev curr block count k =
    let half = merge_prev prev block k in
    let settled = merge_next half.0 curr half.1 in
    record settled { n_pages = add32 settled.n_pages count }

module _ {k : Km} {xs : List Ptr} (pool : Pool k xs) (block count : ℕ) (ne : block ≢ null)
    (some_pages : 1 ≤ count) (fits : block + count * page_size ≤ top)
    (taken : InUse k xs block count) where
  unfoldable pub sized : Km
  sized = record k { pages_of = update k.pages_of block count }

  not_first : covers k.pages_of xs block ≡ false
  not_first = taken block (ground (arith, some_pages))

  out : has block xs ≡ false
  out = has-covers k.pages_of block xs pool.spaced not_first

  same_pages : Agree sized.pages_of k.pages_of xs
  unfolding sized
  same_pages = Agree-update k.pages_of block count xs out

  pub sized-Pool : Pool sized xs
  unfolding sized
  sized-Pool = record {
    chain = pool.chain;
    spaced = Spaced-Agree sized.pages_of k.pages_of xs same_pages pool.spaced;
    count = pool.count ∙ sym (total-Agree sized.pages_of k.pages_of xs same_pages);
    ready = pool.ready;
  }

  module _ (pre suf : List Ptr) (split : xs ≡ pre ++ suf) (low : All (λ x. x < block) pre)
      (high : block ≤ head_or top suf) where
    spaced' : Spaced k.pages_of (pre ++ suf)
    spaced' = subst (Spaced k.pages_of) split pool.spaced

    apart : Agree sized.pages_of k.pages_of pre × Agree sized.pages_of k.pages_of suf
    apart =
        All-append (λ x. sized.pages_of x ≡ k.pages_of x) pre suf
          (subst (Agree sized.pages_of k.pages_of) split same_pages)

    now : sized.pages_of block ≡ count
    unfolding sized
    now = ground arith

    free_of :
        (a : ℕ) → covers k.pages_of xs a ≡ (covers k.pages_of pre a || covers k.pages_of suf a)
    free_of a = ap (λ l. covers k.pages_of l a) split ∙ covers-append k.pages_of pre suf a

    end_before : block + count * page_size ≤ head_or top suf
    end_before =
        head_above k.pages_of suf block (count * page_size)
          (Spaced-suffix k.pages_of pre suf spaced') high
          (λ a inside.
            or_right' (covers k.pages_of pre a) (covers k.pages_of suf a)
              (sym (free_of a) ∙ taken a inside))
          fits

    placed-Spaced : Spaced sized.pages_of (pre ++ block ∷ suf)
    placed-Spaced =
        insert-Spaced sized.pages_of k.pages_of pre suf block apart.0 spaced' low
          (or_left (covers k.pages_of pre block) (covers k.pages_of suf block)
            (sym (free_of block) ∙ not_first))
          (
            omega (arith, now, some_pages),
            omega (arith, now, end_before),
            Spaced-Agree sized.pages_of k.pages_of suf apart.1
                (Spaced-suffix k.pages_of pre suf spaced'),
          )

    placed-total : total sized.pages_of (pre ++ block ∷ suf) ≡ total k.pages_of xs + count
    placed-total = omega (
      arith,
      now,
      total-append sized.pages_of pre (block ∷ suf),
      total-append k.pages_of pre suf,
      ap (total k.pages_of) split,
      total-Agree sized.pages_of k.pages_of pre apart.0,
      total-Agree sized.pages_of k.pages_of suf apart.1,
    )

    placed-covers :
        (a : ℕ)
        → covers sized.pages_of (pre ++ block ∷ suf) a
          ≡ (covers k.pages_of xs a || between block (block + count * page_size) a)
    placed-covers a =
        rw
          (
            covers-append sized.pages_of pre (block ∷ suf) a,
            free_of a,
            covers-Agree sized.pages_of k.pages_of pre a apart.0,
            covers-Agree sized.pages_of k.pages_of suf a apart.1,
            now,
          )
          (swap (covers k.pages_of pre a) (between block (block + count * page_size) a)
            (covers k.pages_of suf a))

    settled-Pool :
        (front : List Ptr) (u : Ptr) (h : Km) (ys : List Ptr)
        → h.n_pages ≡ k.n_pages
        → h.initialized ≡ k.initialized
        → Linked h ys sized.pages_of (pre ++ block ∷ suf)
        → Released k xs block count tt (record h { n_pages = add32 h.n_pages count })
    settled-Pool front u h ys same_count same_ready m = (
      ys,
      record {
        chain = m.chain;
        spaced = m.spaced;
        count = omega (
          arith,
          same_count,
          pool.count,
          m.same_total,
          placed-total,
          total-fits h.pages_of ys m.spaced,
        );
        ready = same_ready ∙ pool.ready;
      },
      λ a. m.same_covers a ∙ placed-covers a,
    )

    pub released :
        Released k xs block count tt
          (release (last_or null pre) (head_or null suf) block count sized)
    unfolding release sized
    released =
        let (front, l) =
          merge_prev-Halved sized pre block suf
            (subst (Chain k.next_of k.free_pages) split pool.chain)
            (ap (has block) (sym split) ∙ out) ne placed-Spaced in
        let half = merge_prev (last_or null pre) block sized in
        let (ys, m) =
          merge_next-Linked half.1 front half.0 suf sized.pages_of (pre ++ block ∷ suf) l in
        let kept = merge_prev-n_pages (last_or null pre) block sized in
        let kept' = merge_next-n_pages half.0 (head_or null suf) half.1 in
        settled-Pool front half.0 (merge_next half.0 (head_or null suf) half.1) ys
          (kept'.0 ∙ kept.0) (kept'.1 ∙ kept.1) m
