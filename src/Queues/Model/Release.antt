-- ===== src/Queues/Model/Release.antt =====
-- The node lists of a modelled state: one node goes from a queue back to the free list.
use mathlib.Core.Path.{subst, subst₂}
use mathlib.Core.List.{map-append}
use os_team.Base.{
  ℕ, suc, ◌+◌, ◌≡◌, ◌≢◌, refl, sym, ap, false, some, List, [], ◌∷◌, ◌++◌, map, length, get_elem?,
  set, arith,
}
use os_team.Base.Chain.{Ptr, null, update, has, Chain, All, last_or}
use os_team.Base.Chain.Write.{has-append, Chain-update, Chain-push, Chain-apart, Chain-suffix}
use os_team.Queues.State.{Queue, Que}
use os_team.Queues.Model.{View, Owner, IsQueue, Models, with_items}
use os_team.Queues.Model.Frame.{not-has, Same, Chain-Same, Models-set}
use os_team.Queues.Model.Nodes.{All-append, append-All, All-update}

not-has_of_apart :
    (n : Ptr) (xs ys : List Ptr) → All (λ x. has x (n ∷ ys) ≡ false) xs → has n xs ≡ false
not-has_of_apart n [] ys h = refl
not-has_of_apart n (x ∷ xs) ys h = ground (arith, not-has_of_apart n xs ys h.1, h.0)

-- In a chain an address comes once.
pub Chain-once :
    (next : Ptr → Ptr) (p n : Ptr) (xs ys : List Ptr)
    → Chain next p (xs ++ n ∷ ys)
    → (n ≢ null) × (has n xs ≡ false) × (has n ys ≡ false)
Chain-once next p n xs ys c =
    let rest = Chain-suffix next p xs (n ∷ ys) c in
    (rest.1, not-has_of_apart n xs ys (Chain-apart next p xs (n ∷ ys) c), rest.2)

module _ {s : Que} {v : View} (m : Models s v) (i : ℕ) (q : Queue)
    (here : get_elem? s.queues i ≡ some q) (n : Ptr) (xs ys : List Ptr)
    (split : m.nodes i ≡ xs ++ n ∷ ys) where
  pub Chain-split : Chain s.next_of q.head (xs ++ n ∷ ys)
  Chain-split = subst (Chain s.next_of q.head) split (m.queue i q here).chain

  owned_split : All (λ a. m.own a ≡ i + 2) (xs ++ n ∷ ys)
  owned_split = subst (All (λ a. m.own a ≡ i + 2)) split (m.queue i q here).owned

  -- The state after the node is unlinked from queue `i` by writes `next` and freed.
  abbrev pub removed : (next : Ptr → Ptr) → Queue → Que
  removed next q' = record s {
    next_of = update next n s.free_qnodes;
    free_qnodes = n;
    queues = set s.queues i q';
  }

  abbrev own' : Owner
  own' = update m.own n 1

  module _ (next : Ptr → Ptr) (q' : Queue)
      (outside : (a : Ptr) → m.own a ≢ i + 2 → next a ≡ s.next_of a) where
    Same-of : (t : ℕ) → t ≢ i + 2 → Same m.own own' s (removed next q') t
    Same-of t ne a o =
        let owner : m.own n ≡ i + 2 =
          (All-append (λ a. m.own a ≡ i + 2) xs (n ∷ ys) owned_split).1.0 in
        let apart : a ≢ n = ground arith in (ground arith, ground (arith, outside a), refl)

    keep_pool : Chain next s.free_qnodes m.free
    keep_pool =
        Chain-Same m.own m.own s (record s { next_of = next }) 1
          (λ a o. (o, outside a (omega arith), refl)) s.free_qnodes m.free m.pool_owned m.pool

    pub Models-remove :
        Chain next q'.head (xs ++ ys)
        → q'.tail ≡ last_or null (xs ++ ys)
        → q'.count ≡ length (xs ++ ys)
        → q'.compare ≡ q.compare
        → Models
            (removed next q')
            (with_items v (suc v.room) i (map s.item_of xs ++ map s.item_of ys))
    Models-remove chain tail count order =
        let once = Chain-once s.next_of q.head n xs ys Chain-split in
        let out : has n (xs ++ ys) ≡ false = ground (arith, has-append n xs ys, once.1, once.2) in
        let of_xs = All-append (λ a. m.own a ≡ i + 2) xs (n ∷ ys) owned_split in
        let fresh : has n m.free ≡ false =
          not-has m.own 1 n m.free m.pool_owned (omega (arith, of_xs.1.0)) in
        let new : IsQueue (removed next q') own' i q' (xs ++ ys) = record {
          chain = Chain-update next n s.free_qnodes q'.head (xs ++ ys) out chain;
          owned =
              All-update m.own n (i + 2) 1 (xs ++ ys) out
                (append-All (λ a. m.own a ≡ i + 2) xs ys of_xs.0 of_xs.1.1);
          tail = tail;
          count = count;
        } in
        subst₂ (λ r l. Models (removed next q') (with_items v r i l)) (ap suc (sym m.room))
          (map-append s.item_of xs ys)
          (Models-set m (removed next q') i q q' own' (n ∷ m.free) (xs ++ ys) here refl order new
            (λ j ne. Same-of (j + 2) (ground arith))
            (Chain-push next n s.free_qnodes m.free once.0 fresh keep_pool)
            (ground arith, All-update m.own n 1 1 m.free fresh m.pool_owned))
