-- ===== src/Queues/Model/Frame.antt =====
-- What an operation on one queue must show: it rebuilds that queue and the free list, and it leaves
-- what the other queues own as it was.
use mathlib.Core.Path.{subst}
use os_team.Base.{
  ℕ, ◌+◌, ◌≡◌, ◌≢◌, refl, sym, ap, ap₂, ◌∙◌, inl, inr, true, false, some, List, [], ◌∷◌, map,
  length, get_elem?, set, length-set, get_elem?-set_self, get_elem?-set_ne, arith, ◌==◌,
  if◌then◌else◌, Bool-cases, eq_of_==,
}
use os_team.Base.Chain.{Ptr, has, Chain, All}
use os_team.Queues.State.{Queue, Que}
use os_team.Queues.Model.{View, Owner, IsQueue, Models, with_items}

-- An address of another owner is not in the list.
pub not-has :
    (own : Owner) (t : ℕ) (b : Ptr) (xs : List Ptr)
    → All (λ a. own a ≡ t) xs
    → own b ≢ t
    → has b xs ≡ false
not-has own t b [] o ne = refl
not-has own t b (x ∷ xs) o ne = ground (arith, not-has own t b xs o.1)

-- What the owner `t` has is as it was: the addresses, and both fields of the nodes there.
abbrev pub Same : Owner → Owner → Que → Que → ℕ → Type 0
Same own own' s s' t =
    (a : Ptr)
    → own a ≡ t
    → (own' a ≡ t) × (s'.next_of a ≡ s.next_of a) × (s'.item_of a ≡ s.item_of a)

module _ (own own' : Owner) (s s' : Que) (t : ℕ) (same : Same own own' s s' t) where
  pub All-Same : (xs : List Ptr) → All (λ a. own a ≡ t) xs → All (λ a. own' a ≡ t) xs
  All-Same [] o = tt
  All-Same (x ∷ xs) o = ((same x o.0).0, All-Same xs o.1)

  pub Chain-Same :
      (p : Ptr) (xs : List Ptr)
      → All (λ a. own a ≡ t) xs
      → Chain s.next_of p xs
      → Chain s'.next_of p xs
  Chain-Same p [] o c = c
  Chain-Same p (x ∷ xs) o c =
      (c.0, c.1, c.2, rw ((same x o.0).1) (Chain-Same (s.next_of x) xs o.1 c.3))

  pub map-Same : (xs : List Ptr) → All (λ a. own a ≡ t) xs → map s'.item_of xs ≡ map s.item_of xs
  map-Same [] o = refl
  map-Same (x ∷ xs) o = ap₂ ◌∷◌ ((same x o.0).2) (map-Same xs o.1)

pub IsQueue-Same :
    (own own' : Owner) (s s' : Que) (i : ℕ) (q : Queue) (xs : List Ptr)
    → Same own own' s s' (i + 2)
    → IsQueue s own i q xs
    → IsQueue s' own' i q xs
IsQueue-Same own own' s s' i q xs same h = record {
  chain = Chain-Same own own' s s' (i + 2) same q.head xs h.owned h.chain;
  owned = All-Same own own' s s' (i + 2) same xs h.owned;
  tail = h.tail;
  count = h.count;
}

-- The nodes of a queue after queue `i` is given the nodes `ys`.
abbrev pub with_nodes : (ℕ → List Ptr) → ℕ → List Ptr → ℕ → List Ptr
with_nodes nodes i ys j = if j == i then ys else nodes j

module _ {s : Que} {v : View} (m : Models s v) (s' : Que) (i : ℕ) (q q' : Queue) (own' : Owner)
    (free' ys : List Ptr) (here : get_elem? s.queues i ≡ some q)
    (queues : s'.queues ≡ set s.queues i q') where
  at_other :
      (j : ℕ) (p : Queue)
      → (j == i) ≡ false
      → get_elem? s'.queues j ≡ some p
      → get_elem? s.queues j ≡ some p
  at_other j p ne e = ground (arith, get_elem?-set_ne s.queues i j q')

  at_same : (j : ℕ) (p : Queue) → (j == i) ≡ true → get_elem? s'.queues j ≡ some p → q' ≡ p
  at_same j p eq e = ground (arith, get_elem?-set_self s.queues i q' here, eq_of_== j i eq)

  module _ (order : q'.compare ≡ q.compare) (new : IsQueue s' own' i q' ys)
      (others : (j : ℕ) → j ≢ i → Same m.own own' s s' (j + 2)) where
    Same-at : (j : ℕ) → (j == i) ≡ false → Same m.own own' s s' (j + 2)
    Same-at j ne = others j (ground arith)

    queue_at :
        (j : ℕ) (p : Queue)
        → get_elem? s'.queues j ≡ some p
        → IsQueue s' own' j p (with_nodes m.nodes i ys j)
    queue_at j p e = elim (Bool-cases (j == i)) [
      | inl eq ↦ rw eq (
          subst (λ k. IsQueue s' own' k p ys) (sym (eq_of_== j i eq))
            (subst (λ r. IsQueue s' own' i r ys) (at_same j p eq e) new))
      | inr ne ↦ rw ne (
          IsQueue-Same m.own own' s s' j p (m.nodes j) (Same-at j ne)
            (m.queue j p (at_other j p ne e)))
    ]

    items_at :
        (j : ℕ) (p : Queue)
        → get_elem? s'.queues j ≡ some p
        → (if j == i then map s'.item_of ys else v.items j)
          ≡ map s'.item_of (with_nodes m.nodes i ys j)
    items_at j p e = elim (Bool-cases (j == i)) [
      | inl eq ↦ rw eq
      | inr ne ↦ rw ne (
          m.items j p (at_other j p ne e)
          ∙ sym (
              map-Same m.own own' s s' (j + 2) (Same-at j ne) (m.nodes j)
                (m.queue j p (at_other j p ne e)).owned))
    ]

    order_at : (j : ℕ) (p : Queue) → get_elem? s'.queues j ≡ some p → p.compare ≡ v.order j
    order_at j p e = elim (Bool-cases (j == i)) [
      | inl eq ↦
          ap (λ (r : Queue). r.compare) (sym (at_same j p eq e))
          ∙ order
          ∙ m.order i q here
          ∙ ap v.order (sym (eq_of_== j i eq))
      | inr ne ↦ m.order j p (at_other j p ne e)
    ]

    pub Models-set :
        Chain s'.next_of s'.free_qnodes free'
        → All (λ a. own' a ≡ 1) free'
        → Models s' (with_items v (length free') i (map s'.item_of ys))
    Models-set pool pool_owned = record {
      own = own';
      free = free';
      nodes = with_nodes m.nodes i ys;
      pool = pool;
      pool_owned = pool_owned;
      room = refl;
      n_queues = ap length queues ∙ length-set s.queues i q' ∙ m.n_queues;
      queue = queue_at;
      items = items_at;
      order = order_at;
    }
