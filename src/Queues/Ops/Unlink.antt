-- ===== src/Queues/Ops/Unlink.antt =====
-- The removal of one node of a queue, at its head or behind another node.
use mathlib.Core.Path.{subst}
use mathlib.Core.List.{append-nil}
use os_team.Base.{
  ℕ, suc, ◌+◌, ◌-◌, ◌≡◌, ◌≢◌, refl, sym, ap, ◌∙◌, true, false, not, some, List, [], ◌∷◌, ◌++◌, map,
  length, get_elem?, arith, ◌==◌, if◌then◌else◌, Returns, returns,
}
use os_team.Base.Chain.{Ptr, null, update, has, Chain, All, last_or, head_or}
use os_team.Base.Chain.Write.{Chain-head, Chain-apart, Chain-suffix, Chain-relink, Chain-ne_null}
use os_team.Queues.State.{Queue, Que, store}
use os_team.Queues.Model.{View, IsQueue, Models, with_items}
use os_team.Queues.Model.Nodes.{All-append, All-last_or}
use os_team.Queues.Model.Release.{Models-remove, Chain-split, Chain-once}
use os_team.Queues.Qnodes.{qnode_free}
use os_team.Queues.Ops.Insert.{last_or-append, tail_after, length-insert}
use os_team.Queues.Ops.{unlink_first, unlink}

tail_before :
    (n t prev : Ptr) (xs ys : List Ptr)
    → All (λ x. x ≢ null) ys
    → t ≡ last_or null (xs ++ n ∷ ys)
    → prev ≡ last_or null xs
    → (if head_or null ys == null then prev else t) ≡ last_or null (xs ++ ys)
tail_before n t prev xs [] h e p = p ∙ ap (last_or null) (sym (append-nil xs))
tail_before n t prev xs (y ∷ ys) h e p =
    ground (arith, last_or-append null n xs (y ∷ ys), last_or-append null y xs ys)

apart_rest :
    (next : Ptr → Ptr) (p n : Ptr) (xs ys : List Ptr)
    → Chain next p (xs ++ n ∷ ys)
    → All (λ x. has x ys ≡ false) xs
apart_rest next p n xs ys c = All-tail n xs ys (Chain-apart next p xs (n ∷ ys) c)
  where
    All-tail :
        (n : Ptr) (xs ys : List Ptr)
        → All (λ x. has x (n ∷ ys) ≡ false) xs
        → All (λ x. has x ys ≡ false) xs
    All-tail n [] ys h = tt
    All-tail n (x ∷ xs) ys h = (ground (arith, h.0), All-tail n xs ys h.1)

-- The result of a removal from queue `i`: it has these entries, and one more qnode is free.
abbrev pub Removes : View → ℕ → List Ptr → Unit {0} → Que → Type 0
Removes v i xs _ s' = Models s' (with_items v (suc v.room) i xs)

module _ {s : Que} {v : View} (m : Models s v) (i : ℕ) (q : Queue)
    (here : get_elem? s.queues i ≡ some q) where
  is : IsQueue s m.own i q (m.nodes i)
  is = m.queue i q here

  pub first-Removes :
      (ys : List Ptr)
      → m.nodes i ≡ q.head ∷ ys
      → Returns (Removes v i (map s.item_of ys)) (unlink_first (suc i) q s)
  unfolding unlink_first store qnode_free
  first-Removes ys split =
      let chain = Chain-split m i q here q.head [] ys split in
      let found : (not (q.head == null)) ≡ true = ground (arith, chain.1) in
      let size : q.count ≡ suc (length ys) = is.count ∙ ap length split in
      let at_head = Chain-head s.next_of (s.next_of q.head) ys chain.3 in
      let tail' = if s.next_of q.head == null then null else q.tail in
      rw found (
        returns (
          Models-remove m i q here q.head [] ys split s.next_of
            (record q { head = s.next_of q.head; tail = tail'; count = q.count - 1 }) (λ a _. refl)
            chain.3
            (subst (λ h. (if h == null then null else q.tail) ≡ last_or null ys) (sym at_head)
              (tail_after null q.tail (q.head ∷ []) ys
                (Chain-ne_null s.next_of (s.next_of q.head) ys chain.3)
                (is.tail ∙ ap (last_or null) split)))
            (omega arith) refl))

  -- What the removal of the node `n` uses, wherever it stands.
  module _ (n : Ptr) (xs ys : List Ptr) (split : m.nodes i ≡ xs ++ n ∷ ys) where
    whole : Chain s.next_of q.head (xs ++ n ∷ ys)
    whole = Chain-split m i q here n xs ys split

    rest-Chain : Chain s.next_of (s.next_of n) ys
    rest-Chain = (Chain-suffix s.next_of q.head xs (n ∷ ys) whole).3

    found : (not (n == null)) ≡ true
    found = ground (arith, Chain-once s.next_of q.head n xs ys whole)

    abbrev new_tail : Ptr → Ptr
    new_tail prev = if s.next_of n == null then prev else q.tail

    new_tail_lem : (prev : Ptr) → prev ≡ last_or null xs → new_tail prev ≡ last_or null (xs ++ ys)
    new_tail_lem prev e =
        subst (λ h. (if h == null then prev else q.tail) ≡ last_or null (xs ++ ys))
          (sym (Chain-head s.next_of (s.next_of n) ys rest-Chain))
          (tail_before n q.tail prev xs ys (Chain-ne_null s.next_of (s.next_of n) ys rest-Chain)
            (is.tail ∙ ap (last_or null) split) e)

    new_count : q.count - 1 ≡ length (xs ++ ys)
    new_count = omega (arith, is.count, ap length split, length-insert n xs ys)

  pub behind-Removes :
      (n a : Ptr) (as' ys : List Ptr)
      → m.nodes i ≡ (a ∷ as') ++ n ∷ ys
      → Returns
          (Removes v i (map s.item_of (a ∷ as') ++ map s.item_of ys))
          (unlink (suc i) q (last_or a as') n s)
  unfolding unlink store qnode_free
  behind-Removes n a as' ys split =
      let xs = a ∷ as' in
      let chain = whole n xs ys split in
      let prev = last_or a as' in
      let all_ne = Chain-ne_null s.next_of q.head (xs ++ n ∷ ys) chain in
      let behind : (prev == null) ≡ false = ground (
        arith,
        All-last_or (λ x. x ≢ null) a as' (All-append (λ x. x ≢ null) xs (n ∷ ys) all_ne).0,
      ) in
      let owned : m.own prev ≡ i + 2 =
        All-last_or (λ x. m.own x ≡ i + 2) a as'
          (All-append (λ x. m.own x ≡ i + 2) xs (n ∷ ys)
            (subst (λ l. All (λ x. m.own x ≡ i + 2) l) split is.owned)).0 in
      rw (behind, found n xs ys split)
        (returns (
          Models-remove m i q here n xs ys split (update s.next_of prev (s.next_of n))
            (record q { tail = new_tail n xs ys split prev; count = q.count - 1 })
            (λ b no. ground arith)
            (Chain-relink s.next_of (s.next_of n) q.head a as' (n ∷ ys) ys chain
              (rest-Chain n xs ys split) (apart_rest s.next_of q.head n xs ys chain))
            (new_tail_lem n xs ys split prev refl) (new_count n xs ys split) refl))

  -- The head node, found by the traversal.
  pub front-Removes :
      (n : Ptr) (ys : List Ptr)
      → m.nodes i ≡ n ∷ ys
      → Returns (Removes v i (map s.item_of ys)) (unlink (suc i) q null n s)
  unfolding unlink store qnode_free
  front-Removes n ys split = rw (found n [] ys split) (
      returns (
        Models-remove m i q here n [] ys split s.next_of
          (record q { head = s.next_of n; tail = new_tail n [] ys split null; count = q.count - 1 })
          (λ a _. refl) (rest-Chain n [] ys split) (new_tail_lem n [] ys split null refl)
          (new_count n [] ys split) refl))

  -- At the node and the predecessor where a traversal stopped.
  pub unlink-Removes :
      (n : Ptr) (xs ys : List Ptr)
      → m.nodes i ≡ xs ++ n ∷ ys
      → Returns
          (Removes v i (map s.item_of xs ++ map s.item_of ys))
          (unlink (suc i) q (last_or null xs) n s)
  unlink-Removes n [] ys split = front-Removes n ys split
  unlink-Removes n (a ∷ as') ys split = behind-Removes n a as' ys split
