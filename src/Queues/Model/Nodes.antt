-- ===== src/Queues/Model/Nodes.antt =====
-- The node lists of a modelled state: one node more in a queue, one node fewer.
pub use os_team.Base.Chain.Split.{All-append, append-All}
use mathlib.Core.Path.{subst, subst₂}
use os_team.Base.{
  ℕ, ◌+◌, ◌≡◌, ◌≢◌, refl, sym, ap₂, false, some, List, [], ◌∷◌, ◌++◌, map, length, get_elem?, set,
  arith,
}
use os_team.Base.Chain.{Ptr, null, update, has, Chain, All, last_or}
use os_team.Base.Chain.Write.{map-update, has-append}
use os_team.Queues.State.{Queue, Que}
use os_team.Queues.Model.{View, Owner, IsQueue, Models, with_items}
use os_team.Queues.Model.Frame.{not-has, Same, All-Same, Chain-Same, Models-set}

pub All-update :
    (own : Owner) (n t t' : ℕ) (xs : List Ptr)
    → has n xs ≡ false
    → All (λ a. own a ≡ t) xs
    → All (λ a. update own n t' a ≡ t) xs
All-update own n t t' [] out o = tt
All-update own n t t' (x ∷ xs) out o =
    (ground (arith, o.0), All-update own n t t' xs (ground arith) o.1)

pub map-append-cons {ℓ} :
    {A : Type ℓ} (f : Ptr → A) (n : Ptr) (v : A) (xs ys : List Ptr)
    → has n (xs ++ ys) ≡ false
    → map (update f n v) (xs ++ n ∷ ys) ≡ map f xs ++ v ∷ map f ys
map-append-cons f n v [] ys out =
    let here : update f n v n ≡ v = ground arith in ap₂ ◌∷◌ here (map-update f n v ys out)
map-append-cons f n v (x ∷ xs) ys out =
    let here : update f n v x ≡ f x = ground arith in
    ap₂ ◌∷◌ here (map-append-cons f n v xs ys (ground arith))

out_parts :
    (n : Ptr) (xs ys : List Ptr)
    → has n (xs ++ ys) ≡ false
    → (has n xs ≡ false) × (has n ys ≡ false)
out_parts n xs ys out = ground (arith, has-append n xs ys)

module _ {s : Que} {v : View} (m : Models s v) (i : ℕ) (q : Queue)
    (here : get_elem? s.queues i ≡ some q) (n item : Ptr) (unowned : m.own n ≡ 0) where
  -- The node is in no list.
  pub not-has-nodes : has n (m.nodes i) ≡ false
  not-has-nodes = not-has m.own (i + 2) n (m.nodes i) (m.queue i q here).owned (omega arith)

  -- The state after the node is linked into queue `i` by writes `next` of its pointers.
  abbrev pub inserted : (next : Ptr → Ptr) → Queue → Que
  inserted next q' = record s {
    next_of = next;
    item_of = update s.item_of n item;
    queues = set s.queues i q';
  }

  module _ (next : Ptr → Ptr) (q' : Queue) (xs ys : List Ptr) (split : m.nodes i ≡ xs ++ ys)
      (outside : (a : Ptr) → a ≢ n → m.own a ≢ i + 2 → next a ≡ s.next_of a) where
    abbrev own' : Owner
    own' = update m.own n (i + 2)

    Same-of : (t : ℕ) → t ≢ 0 → t ≢ i + 2 → Same m.own own' s (inserted next q') t
    Same-of t nz ne a o =
        let apart : a ≢ n = ground arith in
        (ground arith, outside a apart (ground arith), ground arith)

    -- A queue that holds the node between its entries, and whose other fields fit, models the
    -- insertion.
    pub Models-insert :
        Chain next q'.head (xs ++ n ∷ ys)
        → q'.tail ≡ last_or null (xs ++ n ∷ ys)
        → q'.count ≡ length (xs ++ n ∷ ys)
        → q'.compare ≡ q.compare
        → Models
            (inserted next q')
            (with_items v v.room i (map s.item_of xs ++ item ∷ map s.item_of ys))
    Models-insert chain tail count order =
        let out : has n (xs ++ ys) ≡ false = subst (λ l. has n l ≡ false) split not-has-nodes in
        let (of_xs, of_ys) =
          All-append (λ a. m.own a ≡ i + 2) xs ys
            (subst (λ l. All (λ a. m.own a ≡ i + 2) l) split (m.queue i q here).owned) in
        let apart = out_parts n xs ys out in
        let new : IsQueue (inserted next q') own' i q' (xs ++ n ∷ ys) = record {
          chain = chain;
          owned =
              append-All (λ a. own' a ≡ i + 2) xs (n ∷ ys)
                (All-update m.own n (i + 2) (i + 2) xs apart.0 of_xs)
                (ground arith, All-update m.own n (i + 2) (i + 2) ys apart.1 of_ys);
          tail = tail;
          count = count;
        } in
        subst₂ (λ r l. Models (inserted next q') (with_items v r i l)) (sym m.room)
          (map-append-cons s.item_of n item xs ys out)
          (Models-set m (inserted next q') i q q' own' m.free (xs ++ n ∷ ys) here refl order new
            (λ j ne. Same-of (j + 2) (omega arith) (ground arith))
            (Chain-Same m.own own' s (inserted next q') 1 (Same-of 1 (omega arith) (omega arith))
              s.free_qnodes m.free m.pool_owned m.pool)
            (All-Same m.own own' s (inserted next q') 1 (Same-of 1 (omega arith) (omega arith))
              m.free m.pool_owned))

pub All-last_or {ℓ} :
    (P : Ptr → Type ℓ) (a : Ptr) (xs : List Ptr) → All P (a ∷ xs) → P (last_or a xs)
All-last_or P a [] h = h.0
All-last_or P a (x ∷ xs) h = All-last_or P x xs h.1
