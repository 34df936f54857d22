-- ===== src/Queues/Ops/Insert.antt =====
-- `que_insert`: where the new entry goes.
use mathlib.Core.Path.{subst}
use mathlib.Core.List.{append-nil}
use os_team.Base.{
  ℕ, suc, ◌+◌, ◌^◌, ◌<◌, ◌≡◌, ◌≢◌, refl, sym, ap, ◌∙◌, true, false, ◌&&◌, some, List, [], ◌∷◌, ◌++◌,
  map, length, get_elem?, length-append, arith, ◌==◌, if◌then◌else◌, add32, Returns, returns,
}
use os_team.Base.Chain.{Ptr, null, update, has, Chain, All, last_or, head_or}
use os_team.Base.Chain.Write.{
  has-append, Chain-update, Chain-push, Chain-suffix, Chain-relink, Chain-ne_null,
}
use os_team.Queues.State.{Queue, Que, Status, success, store}
use os_team.Queues.Model.{View, IsQueue, Models, with_items}
use os_team.Queues.Model.Nodes.{Models-insert, not-has-nodes, All-append, All-last_or}
use os_team.Queues.Ops.{insert_first, append, link}

pub last_or-append : (d n : Ptr) (xs ys : List Ptr) → last_or d (xs ++ n ∷ ys) ≡ last_or n ys
last_or-append d n [] ys = refl
last_or-append d n (x ∷ xs) ys = last_or-append x n xs ys

pub length-insert : (n : Ptr) (xs ys : List Ptr) → length (xs ++ n ∷ ys) ≡ length (xs ++ ys) + 1
length-insert n xs ys = omega (arith, length-append xs (n ∷ ys), length-append xs ys)

apart_from : (n : Ptr) (xs : List Ptr) → has n xs ≡ false → All (λ x. has x (n ∷ []) ≡ false) xs
apart_from n [] out = tt
apart_from n (x ∷ xs) out = (ground arith, apart_from n xs (ground arith))

apart_after :
    (next : Ptr → Ptr) (p n : Ptr) (xs ys : List Ptr)
    → has n (xs ++ ys) ≡ false
    → Chain next p (xs ++ ys)
    → All (λ x. has x (n ∷ ys) ≡ false) xs
apart_after next p n [] ys out c = tt
apart_after next p n (x ∷ xs) ys out c =
    (ground (arith, has-append x xs ys, c.2), apart_after next (next x) n xs ys (ground arith) c.3)

-- The `tail` that the ordered insertion leaves is the last node.
pub tail_after :
    (n t : Ptr) (xs ys : List Ptr)
    → All (λ x. x ≢ null) ys
    → t ≡ last_or null (xs ++ ys)
    → (if head_or null ys == null then n else t) ≡ last_or n ys
tail_after n t xs [] h e = refl
tail_after n t xs (y ∷ ys) h e = ground (arith, last_or-append null y xs ys)

-- The node holds the item already.
abbrev pub filled : Que → (n item : Ptr) → Que
filled s n item = record s { item_of = update s.item_of n item }

-- The result of an insertion into queue `i`: it succeeds, and the queue has these entries.
abbrev pub Inserts : View → ℕ → ℕ → List Ptr → Status → Que → Type 0
Inserts v r i xs st s' = (st ≡ success) × Models s' (with_items v r i xs)

module _ {s : Que} {v : View} (m : Models s v) (i : ℕ) (q : Queue)
    (here : get_elem? s.queues i ≡ some q) (n item : Ptr) (unowned : m.own n ≡ 0)
    (ne_null : n ≢ null) (cleared : s.next_of n ≡ null) where
  is : IsQueue s m.own i q (m.nodes i)
  is = m.queue i q here

  pub first-Inserts :
      m.nodes i ≡ []
      → Returns (Inserts v v.room i (item ∷ [])) (insert_first (suc i) q n (filled s n item))
  unfolding insert_first store
  first-Inserts none_yet =
      let at_null : q.head ≡ null = subst (Chain s.next_of q.head) none_yet is.chain in
      let at_null' : q.tail ≡ null = is.tail ∙ ap (last_or null) none_yet in
      let idle : (q.head == null && (q.tail == null)) ≡ true = ground (arith, at_null, at_null') in
      rw idle (
        returns (
          refl,
          Models-insert m i q here n item unowned s.next_of
              (record q { head = n; tail = n; count = 1 }) [] [] none_yet (λ a _ _. refl)
              (refl, ne_null, refl, cleared) refl refl refl,
        ))

  outside_tail :
      (a : Ptr) (as' : List Ptr)
      → m.nodes i ≡ a ∷ as'
      → (b : Ptr) → m.own b ≢ i + 2
      → update s.next_of q.tail n b ≡ s.next_of b
  outside_tail a as' split b ne =
      let at_end : q.tail ≡ last_or a as' = is.tail ∙ ap (last_or null) split in
      let owned : m.own (last_or a as') ≡ i + 2 =
        All-last_or (λ x. m.own x ≡ i + 2) a as'
          (subst (λ l. All (λ x. m.own x ≡ i + 2) l) split is.owned) in
      ground arith

  pub append-Inserts :
      (a : Ptr) (as' : List Ptr)
      → m.nodes i ≡ a ∷ as'
      → length (a ∷ as') + 1 < 2 ^ 32
      → Returns
          (Inserts v v.room i (map s.item_of (a ∷ as') ++ item ∷ []))
          (append (suc i) q n (filled s n item))
  unfolding append store
  append-Inserts a as' split fits =
      let at_end : q.tail ≡ last_or a as' = is.tail ∙ ap (last_or null) split in
      let next = update s.next_of q.tail n in
      let split' : m.nodes i ≡ (a ∷ as') ++ [] = split ∙ sym (append-nil (a ∷ as')) in
      let out : has n (a ∷ as') ≡ false =
        subst (λ l. has n l ≡ false) split (not-has-nodes m i q here n item unowned) in
      let old : Chain s.next_of q.head (a ∷ (as' ++ [])) =
        subst (Chain s.next_of q.head) split' is.chain in
      let new : Chain next q.head (a ∷ (as' ++ n ∷ [])) =
        subst (λ t. Chain (update s.next_of t n) q.head (a ∷ (as' ++ n ∷ []))) (sym at_end)
          (Chain-relink s.next_of n q.head a as' [] (n ∷ []) old (refl, ne_null, refl, cleared)
            (apart_from n (a ∷ as') out)) in
      let size : q.count ≡ length (a ∷ as') = is.count ∙ ap length split in
      returns (
        refl,
        Models-insert m i q here n item unowned next
            (record q { tail = n; count = add32 q.count 1 }) (a ∷ as') [] split'
            (λ b _ ne. outside_tail a as' split b ne) new (sym (last_or-append null n (a ∷ as') []))
            (omega (arith, length-append as' (n ∷ []))) refl,
      )

  -- The pointer writes of `link` before the one at `prev`.
  abbrev linked : List Ptr → Ptr → Ptr
  linked ys = update s.next_of n (head_or null ys)

  linked_chains :
      (xs ys : List Ptr)
      → m.nodes i ≡ xs ++ ys
      → Chain (linked ys) q.head (xs ++ ys)
        × Chain (linked ys) n (n ∷ ys)
        × (has n (xs ++ ys) ≡ false)
  linked_chains xs ys split =
      let out : has n (xs ++ ys) ≡ false =
        subst (λ l. has n l ≡ false) split (not-has-nodes m i q here n item unowned) in
      let old : Chain s.next_of q.head (xs ++ ys) = subst (Chain s.next_of q.head) split is.chain in
      let out_ys : has n ys ≡ false = ground (arith, has-append n xs ys) in
      (
        Chain-update s.next_of n (head_or null ys) q.head (xs ++ ys) out old,
        Chain-push s.next_of n (head_or null ys) ys ne_null out_ys
            (Chain-suffix s.next_of q.head xs ys old),
        out,
      )

  pub link_front-Inserts :
      (y : Ptr) (ys : List Ptr)
      → m.nodes i ≡ y ∷ ys
      → length (y ∷ ys) + 1 < 2 ^ 32
      → Returns
          (Inserts v v.room i (item ∷ map s.item_of (y ∷ ys)))
          (link (suc i) q n null y (filled s n item))
  unfolding link store
  link_front-Inserts y ys split fits =
      let (_, new, _) = linked_chains [] (y ∷ ys) split in
      let size : q.count ≡ length (y ∷ ys) = is.count ∙ ap length split in
      returns (
        refl,
        Models-insert m i q here n item unowned (linked (y ∷ ys))
            (record q { head = n; count = add32 q.count 1 }) [] (y ∷ ys) split
            (λ b ne _. ground arith) new (is.tail ∙ ap (last_or null) split) (omega arith) refl,
      )

  pub link_behind-Inserts :
      (a : Ptr) (as' ys : List Ptr)
      → m.nodes i ≡ (a ∷ as') ++ ys
      → length ((a ∷ as') ++ ys) + 1 < 2 ^ 32
      → Returns
          (Inserts v v.room i (map s.item_of (a ∷ as') ++ item ∷ map s.item_of ys))
          (link (suc i) q n (last_or a as') (head_or null ys) (filled s n item))
  unfolding link store
  link_behind-Inserts a as' ys split fits =
      let (old, new, out) = linked_chains (a ∷ as') ys split in
      let all_ne = Chain-ne_null (linked ys) q.head ((a ∷ as') ++ ys) old in
      let parts = All-append (λ x. x ≢ null) (a ∷ as') ys all_ne in
      let behind : (last_or a as' == null) ≡ false =
        ground (arith, All-last_or (λ x. x ≢ null) a as' parts.0) in
      let owned : m.own (last_or a as') ≡ i + 2 =
        All-last_or (λ x. m.own x ≡ i + 2) a as'
          (All-append (λ x. m.own x ≡ i + 2) (a ∷ as') ys
            (subst (λ l. All (λ x. m.own x ≡ i + 2) l) split is.owned)).0 in
      let tail' = if head_or null ys == null then n else q.tail in
      let size : q.count ≡ length ((a ∷ as') ++ ys) = is.count ∙ ap length split in
      rw behind (
        returns (
          refl,
          Models-insert m i q here n item unowned (update (linked ys) (last_or a as') n)
              (record q { tail = tail'; count = add32 q.count 1 }) (a ∷ as') ys split
              (λ b ne no. ground arith)
              (Chain-relink (linked ys) n q.head a as' ys (n ∷ ys) old new
                (apart_after (linked ys) q.head n (a ∷ as') ys out old))
              (tail_after n q.tail (a ∷ as') ys parts.1 (is.tail ∙ ap (last_or null) split)
                ∙ sym (last_or-append null n (a ∷ as') ys))
              (omega (arith, length-insert n (a ∷ as') ys)) refl,
        ))
