-- ===== src/Queues/Ops/Withdraw.antt =====
-- `que_remove_by` against the list of a queue's entries.
use mathlib.Core.Path.{subst}
use os_team.Base.{
  ℕ, suc, ◌<◌, ◌≡◌, ◌≢◌, refl, sym, ap, ◌∙◌, ◌⊎◌, inl, inr, Bool, true, false, not, List, [], ◌∷◌,
  ◌++◌, map, arith, ◌==◌, if◌then◌else◌, pure, ◌>>◌, Returns, returns, bind,
}
use os_team.Base.Chain.{Ptr, null, has, last_or, head_or, before, after}
use os_team.Base.Chain.Split.{before-append-after}
use os_team.Queues.State.{Que, Status, success, empty, not_found, n_queues}
use os_team.Queues.Model.{View, Models, with_items}
use os_team.Queues.Model.Release.{Chain-split, Chain-once}
use os_team.Queues.Ops.Seek.{seek-found, load-ok}
use os_team.Queues.Ops.Dequeue.{address-ne_null, q, here, is, entries, empty_count, occupied_facts}
use os_team.Queues.Ops.Unlink.{unlink-Removes}
use os_team.Queues.Ops.{unlink, remove_by}
use os_team.Queues.Ops.Seek.{seek-found, load-ok}
use os_team.Queues.Ops.Dequeue.{address-ne_null, q, here, is, entries, empty_count, occupied_facts}
use os_team.Queues.Ops.Unlink.{unlink-Removes}
use os_team.Queues.Ops.{unlink, remove_by}

-- The list without the first occurrence of an entry.
pub without : Ptr → List Ptr → List Ptr
without x [] = []
without x (y ∷ ys) = if x == y then ys else y ∷ without x ys

abbrev pub tail_of : List Ptr → List Ptr
tail_of [] = []
tail_of (x ∷ xs) = xs

-- The queue without its first node that holds the entry.
pub without-split :
    (x : Ptr) (f : Ptr → Ptr) (ns : List Ptr)
    → without x (map f ns)
      ≡ map f (before (λ c. not (x == f c)) ns) ++ map f (tail_of (after (λ c. not (x == f c)) ns))
unfolding without before after
without-split x f [] = refl
without-split x f (n ∷ ns) = ground (arith, without-split x f ns)

abbrev is_nil : List Ptr → Bool
is_nil [] = true
is_nil (x ∷ xs) = false

has-after :
    (x : Ptr) (f : Ptr → Ptr) (ns : List Ptr)
    → has x (map f ns) ≡ not (is_nil (after (λ c. not (x == f c)) ns))
unfolding after
has-after x f [] = refl
has-after x f (n ∷ ns) = ground (arith, has-after x f ns)

-- The outcome of the removal of the entry `x` from queue `i`, which had the entries `xs`.
abbrev pub Withdraws : Que → View → ℕ → Ptr → List Ptr → Status → Que → Type 0
Withdraws s v i x [] st s' = (st ≡ empty) × (s' ≡ s)
Withdraws s v i x (y ∷ ys) st s' =
    ((has x (y ∷ ys) ≡ true)
      × (st ≡ success)
      × Models s' (with_items v (suc v.room) i (without x (y ∷ ys))))
    ⊎ ((has x (y ∷ ys) ≡ false) × (st ≡ not_found) × (s' ≡ s))

module _ {s : Que} {v : View} (m : Models s v) (i : ℕ) (inside : i < n_queues) (x : Ptr) where
  go_on : Ptr → Bool
  go_on c = not (x == s.item_of c)

  at_stop :
      (y : Ptr) (ys : List Ptr)
      → v.items i ≡ y ∷ ys
      → (rest : List Ptr) → after go_on (m.nodes i) ≡ rest
      → Returns (Withdraws s v i x (y ∷ ys)) (
          (if head_or null rest == null then pure not_found else do
            unlink
                (suc i)
                (q m i inside)
                (last_or null (before go_on (m.nodes i)))
                (head_or null rest)
            pure success)
            s)
  unfolding go_on
  at_stop y ys e [] stopped =
      let missing : has x (y ∷ ys) ≡ false =
        ap (has x) (sym e ∙ entries m i inside)
        ∙ has-after x s.item_of (m.nodes i)
        ∙ ap (λ l. not (is_nil l)) stopped in
      returns (inr (missing, refl, refl))
  at_stop y ys e (n ∷ rest) stopped =
      let ns = m.nodes i in
      let xs = before go_on ns in
      let split : ns ≡ xs ++ n ∷ rest =
        sym (before-append-after go_on ns) ∙ ap (λ l. xs ++ l) stopped in
      let whole = Chain-split m i (q m i inside) (here m i inside) n xs rest split in
      let hit : (n == null) ≡ false =
        ground (arith, Chain-once s.next_of (q m i inside).head n xs rest whole) in
      let there : has x (y ∷ ys) ≡ true =
        ap (has x) (sym e ∙ entries m i inside)
        ∙ has-after x s.item_of ns
        ∙ ap (λ l. not (is_nil l)) stopped in
      let left : map s.item_of xs ++ map s.item_of rest ≡ without x (y ∷ ys) =
        ap (λ l. map s.item_of xs ++ map s.item_of (tail_of l)) (sym stopped)
        ∙ sym (without-split x s.item_of ns)
        ∙ ap (without x) (sym (entries m i inside) ∙ e) in
      rw hit (
        bind (unlink-Removes m i (q m i inside) (here m i inside) n xs rest split) (λ _ s' models.
          returns (
            inl (there, refl, subst (λ l. Models s' (with_items v (suc v.room) i l)) left models))))

  by_items :
      x ≢ null
      → (l : List Ptr) → v.items i ≡ l
      → Returns (Withdraws s v i x l) (remove_by (suc i) x s)
  unfolding remove_by go_on
  by_items ne [] e =
      let wanted : (x == null) ≡ false = ground arith in
      rw
        (
          address-ne_null i,
          wanted,
          load-ok s i (q m i inside) (here m i inside),
          empty_count m i inside e,
        )
        (returns (refl, refl))
  by_items ne (y ∷ ys) e =
      let wanted : (x == null) ≡ false = ground arith in
      let (more, full) = occupied_facts m i inside y ys e in
      let seen =
        seek-found s (q m i inside) go_on (m.nodes i) (is m i inside).chain (is m i inside).count in
      rw (address-ne_null i, wanted, load-ok s i (q m i inside) (here m i inside), more, full, seen)
        (at_stop y ys e (after go_on (m.nodes i)) refl)

-- `que_remove_by` on a queue of the module returns, for an entry that is not NULL. If the entry is
-- in the queue, its first occurrence is gone and its qnode is free again, and the other queues have
-- the entries they had; else the status says whether the queue was empty, and nothing changes.
pub remove_by-Withdraws :
    {s : Que} {v : View} (m : Models s v) (i : ℕ) (x : Ptr)
    → i < n_queues
    → x ≢ null
    → Returns (Withdraws s v i x (v.items i)) (remove_by (suc i) x s)
remove_by-Withdraws {v = v} m i x inside ne = by_items m i inside x ne (v.items i) refl
