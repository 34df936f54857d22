-- ===== src/Queues/Ops/Dequeue.antt =====
-- `que_peek`, `que_remove` and `que_remove_by` against the list of a queue's entries.
use mathlib.Core.Path.{subst}
use os_team.Base.{
  ℕ, suc, ◌<◌, ◌≡◌, ◌≢◌, refl, sym, ap, ◌∙◌, true, false, not, ◌&&◌, Option, none, some, List, [],
  ◌∷◌, map, length, get_elem?, length-map, get_elem?_of_lt, arith, ltb, ◌==◌, ok, Returns, returns,
  bind,
}
use os_team.Base.Chain.{Ptr, null, Chain, last_or}
use os_team.Base.Chain.Write.{Chain-head}
use os_team.Queues.State.{Queue, Que, Status, success, empty, n_queues}
use os_team.Queues.Model.{View, IsQueue, Models, with_items}
use os_team.Queues.Ops.Seek.{load-ok, occupied}
use os_team.Queues.Ops.Unlink.{first-Removes}
use os_team.Queues.Ops.{peek, remove}

pub address-ne_null : (i : ℕ) → (not (suc i == null)) ≡ true
address-ne_null i = ground arith

-- What the three operations read of a modelled queue: its structure, and its nodes as they are split
-- by the abstract list.
module _ {s : Que} {v : View} (m : Models s v) (i : ℕ) (inside : i < n_queues) where
  pub found : (q : Queue) × (get_elem? s.queues i ≡ some q)
  found = get_elem?_of_lt s.queues i (omega (arith, m.n_queues))

  abbrev pub q : Queue
  q = found.0

  pub here : get_elem? s.queues i ≡ some q
  here = found.1

  pub is : IsQueue s m.own i q (m.nodes i)
  is = m.queue i q here

  pub entries : v.items i ≡ map s.item_of (m.nodes i)
  entries = m.items i q here

  pub empty_count : v.items i ≡ [] → ltb q.count 1 ≡ true
  empty_count e =
      let size : length (m.nodes i) ≡ 0 =
        sym (length-map s.item_of (m.nodes i)) ∙ ap length (sym entries ∙ e) in
      ground (arith, is.count)

  pub filled_nodes :
      (x : Ptr) (xs : List Ptr)
      → v.items i ≡ x ∷ xs
      → (ys : List Ptr) × (m.nodes i ≡ q.head ∷ ys)
        × (s.item_of q.head ≡ x)
        × (map s.item_of ys ≡ xs)
  filled_nodes x xs e = by_nodes (m.nodes i) refl
    where
      by_nodes :
          (l : List Ptr)
          → m.nodes i ≡ l
          → (ys : List Ptr) × (m.nodes i ≡ q.head ∷ ys)
            × (s.item_of q.head ≡ x)
            × (map s.item_of ys ≡ xs)
      by_nodes [] p = absurd (ground (arith, entries, ap (map s.item_of) p))
      by_nodes (n ∷ ys) p =
          let first : q.head ≡ n =
            Chain-head s.next_of q.head (n ∷ ys) (subst (Chain s.next_of q.head) p is.chain) in
          let whole : x ∷ xs ≡ s.item_of n ∷ map s.item_of ys =
            sym e ∙ entries ∙ ap (map s.item_of) p in
          (ys, p ∙ ap (λ h. h ∷ ys) (sym first), ap s.item_of first ∙ cc, cc)

  pub occupied_facts :
      (x : Ptr) (xs : List Ptr)
      → v.items i ≡ x ∷ xs
      → (ltb q.count 1 ≡ false) × ((not (q.head == null) && not (q.tail == null)) ≡ true)
  occupied_facts x xs e =
      let (ys, split, _, _) = filled_nodes x xs e in
      let size : q.count ≡ suc (length ys) = is.count ∙ ap length split in
      (
        ground arith,
        occupied s.next_of q q.head ys (subst (Chain s.next_of q.head) split is.chain)
            (is.tail ∙ ap (last_or null) split),
      )

  peek_empty : (out : Ptr) → out ≢ null → v.items i ≡ [] → peek (suc i) out s ≡ ok (empty, none) s
  unfolding peek
  peek_empty out ne e =
      let wanted : (out == null) ≡ false = ground arith in
      rw (address-ne_null i, wanted, load-ok s i q here, empty_count e)

  peek_first :
      (out x : Ptr) (xs : List Ptr)
      → out ≢ null
      → v.items i ≡ x ∷ xs
      → peek (suc i) out s ≡ ok (success, some x) s
  unfolding peek
  peek_first out x xs ne e =
      let wanted : (out == null) ≡ false = ground arith in
      let (more, full) = occupied_facts x xs e in
      let (ys, split, first, _) = filled_nodes x xs e in
      rw (address-ne_null i, wanted, load-ok s i q here, more, full)
        (ap (λ y. ok (success, some y) s) first)

  pub remove_empty :
      (out : Ptr) → out ≢ null → v.items i ≡ [] → remove (suc i) out s ≡ ok (empty, none) s
  unfolding remove
  remove_empty out ne e =
      let wanted : (out == null) ≡ false = ground arith in
      rw (address-ne_null i, wanted, load-ok s i q here, empty_count e)

  remove_first :
      (out x : Ptr) (xs : List Ptr)
      → out ≢ null
      → v.items i ≡ x ∷ xs
      → Returns
          (λ got s'. (got ≡ (success, some x)) × Models s' (with_items v (suc v.room) i xs))
          (remove (suc i) out s)
  unfolding remove
  remove_first out x xs ne e =
      let wanted : (out == null) ≡ false = ground arith in
      let (more, full) = occupied_facts x xs e in
      let (ys, split, first, others) = filled_nodes x xs e in
      rw (address-ne_null i, wanted, load-ok s i q here, more, full)
        (bind (first-Removes m i q here ys split) (λ _ s' models. returns (
          ap (λ y. (success, some y)) first,
          subst (λ l. Models s' (with_items v (suc v.room) i l)) others models,
        )))

-- What `que_peek` reads of the entries.
abbrev pub front : List Ptr → Status × Option Ptr
front [] = (empty, none)
front (x ∷ xs) = (success, some x)

-- On a queue of the module, and with a place for the result, `que_peek` returns the first entry, or
-- reports that there is none, and changes nothing.
pub peek-front :
    {s : Que} {v : View} (m : Models s v) (i : ℕ) (out : Ptr)
    → i < n_queues
    → out ≢ null
    → peek (suc i) out s ≡ ok (front (v.items i)) s
peek-front {s} {v} m i out inside ne = by_items (v.items i) refl
  where
    by_items : (l : List Ptr) → v.items i ≡ l → peek (suc i) out s ≡ ok (front l) s
    by_items [] e = peek_empty m i inside out ne e
    by_items (x ∷ xs) e = peek_first m i inside out x xs ne e

-- The outcome of a removal from the front of queue `i`, which had the entries `xs`.
abbrev pub Dequeues : Que → View → ℕ → List Ptr → Status × Option Ptr → Que → Type 0
Dequeues s v i [] got s' = (got ≡ (empty, none)) × (s' ≡ s)
Dequeues s v i (x ∷ xs) got s' =
    (got ≡ (success, some x)) × Models s' (with_items v (suc v.room) i xs)

-- `que_remove` on a queue of the module, and with a place for the result, returns: from an empty queue
-- with a report, changing nothing; else with the first entry, which is gone from the queue, and its qnode is free again. The other
-- queues have the entries they had.
pub remove-Dequeues :
    {s : Que} {v : View} (m : Models s v) (i : ℕ) (out : Ptr)
    → i < n_queues
    → out ≢ null
    → Returns (Dequeues s v i (v.items i)) (remove (suc i) out s)
remove-Dequeues {s} {v} m i out inside ne = by_items (v.items i) refl
  where
    by_items : (l : List Ptr) → v.items i ≡ l → Returns (Dequeues s v i l) (remove (suc i) out s)
    by_items [] e = rw (remove_empty m i inside out ne e) (returns (refl, refl))
    by_items (x ∷ xs) e = remove_first m i inside out x xs ne e
