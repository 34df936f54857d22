-- ===== src/Queues/Ops/Enqueue.antt =====
-- `que_insert` against the list of a queue's entries.
use mathlib.Core.Path.{subst, subst₂}
use os_team.Base.{
  ℕ, suc, ◌+◌, ◌^◌, ◌<◌, ◌≡◌, ◌≢◌, refl, sym, ap, ◌∙◌, inl, inr, true, false, some, List, [], ◌∷◌,
  ◌++◌, map, length, get_elem?, length-map, get_elem?_of_lt, arith, ◌==◌, if◌then◌else◌, Bool-cases,
  Returns, bind,
}
use os_team.Base.Int.{ℤ, nonneg}
use os_team.Base.Chain.{Ptr, null, update, has, Chain, last_or, head_or, before, after}
use os_team.Base.Chain.Split.{before-append-after}
use os_team.Queues.State.{Queue, Que, n_queues, que_ix}
use os_team.Queues.Model.{View, IsQueue, Models}
use os_team.Queues.Qnodes.Take.{Taken, qnode_alloc-Taken}
use os_team.Queues.Model.Nodes.{not-has-nodes}
use os_team.Queues.Ops.Seek.{seek-found, load-ok, nil_of_count, cons_of_count, occupied}
use os_team.Queues.Ops.{append, link, insert_ordered, insert_node, insert, is_valid}
use os_team.Queues.Ops.Insert.{
  Inserts, filled, first-Inserts, append-Inserts, link_front-Inserts, link_behind-Inserts,
}

-- The insertion point: before the first entry that compares as greater.
unfoldable pub place : (Ptr → Ptr → ℤ) → Ptr → List Ptr → List Ptr
place cmp x [] = x ∷ []
place cmp x (y ∷ ys) = if nonneg (cmp x y) then y ∷ place cmp x ys else x ∷ y ∷ ys

-- A queue's entries after an insertion: at the end of a FIFO, else by the ordering function.
unfoldable pub enqueue : (Ptr → Ptr → Ptr → ℤ) → (order : Ptr) → Ptr → List Ptr → List Ptr
enqueue call order x xs = if order == null then xs ++ x ∷ [] else place (call order) x xs

place-split :
    (cmp : Ptr → Ptr → ℤ) (x n : Ptr) (f : Ptr → Ptr) (ns : List Ptr)
    → has n ns ≡ false
    → place cmp x (map f ns)
      ≡ map f (before (λ c. nonneg (cmp x (update f n x c))) ns)
        ++ x ∷ map f (after (λ c. nonneg (cmp x (update f n x c))) ns)
unfolding place before after
place-split cmp x n f [] out = refl
place-split cmp x n f (k ∷ ks) out = ground (arith, place-split cmp x n f ks)

module _ (call : Ptr → Ptr → Ptr → ℤ) {s : Que} {v : View} (m : Models s v) (i : ℕ) (q : Queue)
    (here : get_elem? s.queues i ≡ some q) (n item : Ptr) (unowned : m.own n ≡ 0)
    (ne_null : n ≢ null) (cleared : s.next_of n ≡ null) where
  is : IsQueue s m.own i q (m.nodes i)
  is = m.queue i q here

  link-Inserts :
      (xs ys : List Ptr)
      → m.nodes i ≡ xs ++ ys
      → m.nodes i ≢ []
      → length (xs ++ ys) + 1 < 2 ^ 32
      → Returns
          (Inserts v v.room i (map s.item_of xs ++ item ∷ map s.item_of ys))
          (link (suc i) q n (last_or null xs) (head_or null ys) (filled s n item))
  link-Inserts [] [] split ne fits = absurd (ne split)
  link-Inserts [] (y ∷ ys) split ne fits =
      link_front-Inserts m i q here n item unowned ne_null cleared y ys split fits
  link-Inserts (a ∷ as') ys split ne fits =
      link_behind-Inserts m i q here n item unowned ne_null cleared a as' ys split fits

  ordered-Inserts :
      m.nodes i ≢ []
      → length (m.nodes i) + 1 < 2 ^ 32
      → Returns
          (Inserts v v.room i (place (call q.compare) item (map s.item_of (m.nodes i))))
          (insert_ordered call (suc i) q n item (filled s n item))
  unfolding insert_ordered
  ordered-Inserts ne fits =
      let ns = m.nodes i in
      let go_on = λ (c : Ptr). nonneg (call q.compare item (update s.item_of n item c)) in
      let split = before-append-after go_on ns in
      let out = not-has-nodes m i q here n item unowned in
      rw
        (
          seek-found (filled s n item) q go_on ns is.chain is.count,
          place-split (call q.compare) item n s.item_of ns out,
        )
        (link-Inserts (before go_on ns) (after go_on ns) (sym split) ne
          (subst (λ l. length l + 1 < 2 ^ 32) (sym split) fits))

  empty-Inserts :
      (q.count == 0) ≡ true
      → Returns
          (Inserts v v.room i (enqueue call q.compare item (map s.item_of (m.nodes i))))
          (insert_node call (suc i) n item s)
  unfolding insert_node enqueue place
  empty-Inserts zero' =
      let none_yet = nil_of_count q (m.nodes i) is.count zero' in
      rw (load-ok (filled s n item) i q here, zero', none_yet)
        (elim (Bool-cases (q.compare == null)) [
          | inl fifo ↦ rw fifo (first-Inserts m i q here n item unowned ne_null cleared none_yet)
          | inr sorted ↦
              rw sorted (first-Inserts m i q here n item unowned ne_null cleared none_yet)
        ])

  occupied-Inserts :
      (q.count == 0) ≡ false
      → length (m.nodes i) + 1 < 2 ^ 32
      → Returns
          (Inserts v v.room i (enqueue call q.compare item (map s.item_of (m.nodes i))))
          (insert_node call (suc i) n item s)
  unfolding insert_node enqueue
  occupied-Inserts more fits =
      let (x, rest, split) = cons_of_count q (m.nodes i) is.count more in
      let full =
        occupied s.next_of q x rest (subst (Chain s.next_of q.head) split is.chain)
          (is.tail ∙ ap (last_or null) split) in
      rw (load-ok (filled s n item) i q here, more, full)
        (elim (Bool-cases (q.compare == null)) [
          | inl fifo ↦ rw fifo (
              subst
                (λ l.
                  Returns (Inserts v v.room i (map s.item_of l ++ item ∷ []))
                    (append (suc i) q n (filled s n item)))
                (sym split)
                (append-Inserts m i q here n item unowned ne_null cleared x rest split
                  (subst (λ l. length l + 1 < 2 ^ 32) split fits)))
          | inr sorted ↦ rw sorted (ordered-Inserts (ground (arith, split)) fits)
        ])

  pub node-Inserts :
      length (m.nodes i) + 1 < 2 ^ 32
      → Returns
          (Inserts v v.room i (enqueue call q.compare item (map s.item_of (m.nodes i))))
          (insert_node call (suc i) n item s)
  node-Inserts fits = elim (Bool-cases (q.count == 0)) [
    | inl zero' ↦ empty-Inserts zero'
    | inr more ↦ occupied-Inserts more fits
  ]

is_valid-true : (i : ℕ) → i < n_queues → is_valid (suc i) ≡ true
unfolding que_ix
is_valid-true i inside = ground arith

after_alloc :
    (call : Ptr → Ptr → Ptr → ℤ) {s s1 : Que} {v : View} (r i : ℕ) (item n : Ptr)
    → i < n_queues
    → length (v.items i) + 1 < 2 ^ 32
    → Taken s v r n s1
    → Returns
        (Inserts v r i (enqueue call (v.order i) item (v.items i)))
        (insert_node call (suc i) n item s1)
after_alloc call {s1 = s1} {v} r i item n inside fits t =
    let m = t.model in
    let (q, here) = get_elem?_of_lt s1.queues i (omega (arith, m.n_queues)) in
    let entries = m.items i q here in
    let size : length (v.items i) ≡ length (m.nodes i) =
      ap length entries ∙ length-map s1.item_of (m.nodes i) in
    subst₂
      (λ o l. Returns (Inserts v r i (enqueue call o item l)) (insert_node call (suc i) n item s1))
      (m.order i q here) (sym entries)
      (node-Inserts call m i q here n item t.unowned t.ne_null t.unlinked (omega arith))

-- On a queue of the module, with a free qnode left and the count below its range, `que_insert`
-- succeeds: the queue has the new entry at its end if it is a FIFO, else before the first entry that
-- compares as greater. The other queues have the entries they had, and one qnode fewer is free.
pub insert-enqueue :
    (call : Ptr → Ptr → Ptr → ℤ) {s : Que} {v : View} (r i : ℕ) (item : Ptr)
    → Models s v
    → v.room ≡ suc r
    → i < n_queues
    → length (v.items i) + 1 < 2 ^ 32
    → Returns
        (Inserts v r i (enqueue call (v.order i) item (v.items i)))
        (insert call (suc i) item s)
unfolding insert que_ix
insert-enqueue call {s} {v} r i item m room inside fits = rw (is_valid-true i inside) (
    bind (qnode_alloc-Taken m r room) (λ n s1 t.
      let found : (n == null) ≡ false = ground (arith, t.ne_null) in
      rw found (after_alloc call r i item n inside fits t)))

pub enqueue-fifo :
    (call : Ptr → Ptr → Ptr → ℤ) (x : Ptr) (xs : List Ptr) → enqueue call null x xs ≡ xs ++ x ∷ []
unfolding enqueue
enqueue-fifo call x xs = refl
