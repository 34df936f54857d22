-- ===== src/Kmem/Free.antt =====
-- The two halves of `km_page_free_multi` behind the traversal, each about one neighbour of the block.
use mathlib.Core.Path.{subst}
use mathlib.Core.List.{append_assoc}
use os_team.Base.{
  ℕ, ◌+◌, ◌≤◌, ◌≡◌, ◌≢◌, refl, sym, ap, ◌∙◌, inl, inr, true, false, ◌==◌, List, [], ◌∷◌, ◌++◌,
  arith, Bool-cases, add32,
}
use os_team.Base.Chain.{Ptr, null, update, has, Chain, head_or, last_or}
use os_team.Base.Chain.Split.{All-append}
use os_team.Base.Chain.Write.{
  has-append, Chain-update, Chain-push, Chain-relink, Chain-ne_null, Chain-apart,
}
use os_team.Kmem.State.{Km, adjacent}
use os_team.Kmem.Pages.{merge_prev, merge_next}
use os_team.Kmem.Blocks.{
  top, end, Spaced, covers, total, total-append, Spaced-suffix, total-fits, has-cons,
}
use os_team.Kmem.Pool.{last_ne_null}
use os_team.Kmem.Merge.{Chain-skip, adjacent-end, joined-Spaced, joined-total, joined-covers}

-- The free list has the blocks `xs`, which cover what the blocks `ys` of `pages` do.
pub record Linked (k : Km) (xs : List Ptr) (pages : Ptr → ℕ) (ys : List Ptr) : Type 0 where
  pub chain : Chain k.next_of k.free_pages xs
  pub spaced : Spaced k.pages_of xs
  pub same_total : total k.pages_of xs ≡ total pages ys
  pub same_covers : (a : ℕ) → covers k.pages_of xs a ≡ covers pages ys a

add32_total :
    (pages : Ptr → ℕ) (front : List Ptr) (p q : Ptr) (rest : List Ptr)
    → Spaced pages (front ++ p ∷ q ∷ rest)
    → add32 (pages p) (pages q) ≡ pages p + pages q
add32_total pages front p q rest s =
    omega
      (arith, total-fits pages (front ++ p ∷ q ∷ rest) s, total-append pages front (p ∷ q ∷ rest))

-- The second half of the release, when there is a successor.
merge_some :
    (k : Km) (front : List Ptr) (u c : Ptr) (rest : List Ptr) (pages : Ptr → ℕ) (ys : List Ptr)
    → Linked k (front ++ u ∷ c ∷ rest) pages ys
    → (xs : List Ptr) × Linked (merge_next u c k) xs pages ys
unfolding merge_next
merge_some k front u c rest pages ys l =
    let ne =
      (All-append (λ x. x ≢ null) front (u ∷ c ∷ rest)
        (Chain-ne_null k.next_of k.free_pages (front ++ u ∷ c ∷ rest) l.chain)).1 in
    let behind = Spaced-suffix k.pages_of front (u ∷ c ∷ rest) l.spaced in
    let some_c : (c == null) ≡ false = ground (arith, ne.1.0) in
    elim (Bool-cases (adjacent k u c)) [
      | inr gap ↦ rw (some_c, gap) (front ++ u ∷ c ∷ rest, l)
      | inl meets ↦
          let touch =
            adjacent-end k u c ne.0 ne.1.0
              (omega (arith, behind.1, behind.2.1, total-fits k.pages_of (c ∷ rest) behind.2))
              meets in
          rw (some_c, meets, add32_total k.pages_of front u c rest l.spaced)
            (
              front ++ u ∷ rest,
              record {
                chain = Chain-skip k.next_of k.free_pages front u c rest l.chain;
                spaced = joined-Spaced k.pages_of front u c rest l.spaced touch;
                same_total = joined-total k.pages_of front u c rest l.spaced touch ∙ l.same_total;
                same_covers =
                    λ a. joined-covers k.pages_of front u c rest l.spaced touch a ∙ l.same_covers a;
              },
            )
    ]

pub merge_next-Linked :
    (k : Km) (front : List Ptr) (u : Ptr) (suf : List Ptr) (pages : Ptr → ℕ) (ys : List Ptr)
    → Linked k (front ++ u ∷ suf) pages ys
    → (xs : List Ptr) × Linked (merge_next u (head_or null suf) k) xs pages ys
unfolding merge_next
merge_next-Linked k front u [] pages ys l = (front ++ u ∷ [], l)
merge_next-Linked k front u (c ∷ rest) pages ys l = merge_some k front u c rest pages ys l

snoc : (a : Ptr) (as' : List Ptr) → (front : List Ptr) × (a ∷ as' ≡ front ++ last_or a as' ∷ [])
snoc a [] = ([], refl)
snoc a (b ∷ bs) = let (front, e) = snoc b bs in (a ∷ front, ap (λ l. a ∷ l) e)

Chain-behind :
    (next : Ptr → Ptr) (p a : Ptr) (as' suf : List Ptr)
    → Chain next p (a ∷ (as' ++ suf))
    → Chain next (next (last_or a as')) suf
Chain-behind next p a [] suf c = c.3
Chain-behind next p a (b ∷ bs) suf c = Chain-behind next (next a) b bs suf c.3

-- What the first half of the release makes of the state `k`, which has the page count of the block.
abbrev pub Halved : Km → (pre : List Ptr) (block : Ptr) (suf : List Ptr) → Ptr × Km → Type 0
Halved k pre block suf r =
    (front : List Ptr) × Linked r.1 (front ++ r.0 ∷ suf) k.pages_of (pre ++ block ∷ suf)

has-apart :
    (block : Ptr) (xs ys : List Ptr)
    → has block (xs ++ ys) ≡ false
    → (has block xs ≡ false) × (has block ys ≡ false)
has-apart block xs ys h =
    (ground (arith, has-append block xs ys), ground (arith, has-append block xs ys))

-- Behind a block that does not touch it.
link_behind :
    (k : Km) (a : Ptr) (as' : List Ptr) (block : Ptr) (suf : List Ptr)
    → Chain k.next_of k.free_pages ((a ∷ as') ++ suf)
    → has block ((a ∷ as') ++ suf) ≡ false
    → block ≢ null
    → Spaced k.pages_of ((a ∷ as') ++ block ∷ suf)
    → Halved k (a ∷ as') block suf (
      block,
      record k {
        next_of = update (update k.next_of block (k.next_of (last_or a as'))) (last_or a as') block;
      },
    )
link_behind k a as' block suf c out ne s =
    let apart = has-apart block (a ∷ as') suf out in
    let next' = update k.next_of block (k.next_of (last_or a as')) in
    let rest =
      Chain-push k.next_of block (k.next_of (last_or a as')) suf ne apart.1
        (Chain-behind k.next_of k.free_pages a as' suf c) in
    let whole =
      Chain-update k.next_of block (k.next_of (last_or a as')) k.free_pages (a ∷ (as' ++ suf)) out
        c in
    let unique =
      has-cons block suf (a ∷ as') apart.0 (Chain-apart k.next_of k.free_pages (a ∷ as') suf c) in
    (
      a ∷ as',
      record {
        chain = Chain-relink next' block k.free_pages a as' suf (block ∷ suf) whole rest unique;
        spaced = s;
        same_total = refl;
        same_covers = λ x. refl;
      },
    )

-- Joined with the block before it.
grow_prev :
    (k : Km) (front : List Ptr) (p block : Ptr) (suf : List Ptr)
    → Chain k.next_of k.free_pages (front ++ p ∷ suf)
    → Spaced k.pages_of (front ++ p ∷ block ∷ suf)
    → end k.pages_of p ≡ block
    → Linked
        (record k { pages_of = update k.pages_of p (add32 (k.pages_of p) (k.pages_of block)) })
        (front ++ p ∷ suf)
        k.pages_of
        (front ++ p ∷ block ∷ suf)
grow_prev k front p block suf c s touch = rw (add32_total k.pages_of front p block suf s) (record {
  chain = c;
  spaced = joined-Spaced k.pages_of front p block suf s touch;
  same_total = joined-total k.pages_of front p block suf s touch;
  same_covers = joined-covers k.pages_of front p block suf s touch;
})

grow_last :
    (k : Km) (pre front : List Ptr) (p block : Ptr) (suf : List Ptr)
    → pre ≡ front ++ p ∷ []
    → Chain k.next_of k.free_pages (pre ++ suf)
    → Spaced k.pages_of (pre ++ block ∷ suf)
    → p ≢ null
    → block ≢ null
    → adjacent k p block ≡ true
    → Halved k pre block suf
        (p, record k { pages_of = update k.pages_of p (add32 (k.pages_of p) (k.pages_of block)) })
grow_last k pre front p block suf e c s p_ne ne meets =
    let shift : (ys : List Ptr) → pre ++ ys ≡ front ++ p ∷ ys =
      λ ys. ap (λ l. l ++ ys) e ∙ append_assoc front (p ∷ []) ys in
    let c' = subst (Chain k.next_of k.free_pages) (shift suf) c in
    let s' = subst (Spaced k.pages_of) (shift (block ∷ suf)) s in
    let behind = Spaced-suffix k.pages_of front (p ∷ block ∷ suf) s' in
    let inside : end k.pages_of p ≤ top =
      omega (arith, behind.1, behind.2.1, total-fits k.pages_of (block ∷ suf) behind.2) in
    (
      front,
      subst
          (Linked
            (record k { pages_of = update k.pages_of p (add32 (k.pages_of p) (k.pages_of block)) })
            (front ++ p ∷ suf) k.pages_of)
          (sym (shift (block ∷ suf)))
          (grow_prev k front p block suf c' s' (adjacent-end k p block p_ne ne inside meets)),
    )

pub merge_prev-Halved :
    (k : Km) (pre : List Ptr) (block : Ptr) (suf : List Ptr)
    → Chain k.next_of k.free_pages (pre ++ suf)
    → has block (pre ++ suf) ≡ false
    → block ≢ null
    → Spaced k.pages_of (pre ++ block ∷ suf)
    → Halved k pre block suf (merge_prev (last_or null pre) block k)
unfolding merge_prev
merge_prev-Halved k [] block suf c out ne s = (
  [],
  record {
    chain = Chain-push k.next_of block k.free_pages suf ne out c;
    spaced = s;
    same_total = refl;
    same_covers = λ x. refl;
  },
)
merge_prev-Halved k (a ∷ as') block suf c out ne s =
    let prev_ne : (last_or a as' == null) ≡ false =
      last_ne_null a as'
        (All-append (λ x. x ≢ null) (a ∷ as') suf
          (Chain-ne_null k.next_of k.free_pages (a ∷ (as' ++ suf)) c)).0 in
    elim (Bool-cases (adjacent k (last_or a as') block)) [
      | inr gap ↦ rw (prev_ne, gap) (link_behind k a as' block suf c out ne s)
      | inl meets ↦
          let (front, e) = snoc a as' in
          rw (prev_ne, meets)
            (grow_last k (a ∷ as') front (last_or a as') block suf e c s (ground arith) ne meets)
    ]
