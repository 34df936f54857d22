-- ===== src/Queues/Qnodes/Take.antt =====
-- `qnode_alloc` of kernel/queues.c, over the view of the queues.
use mathlib.Core.Path.{ap, subst}
use os_team.Base.{
  ℕ, suc, ◌+◌, ◌≡◌, ◌≢◌, refl, sym, ◌∙◌, false, List, [], ◌∷◌, length, arith, ◌==◌, Returns,
  returns,
}
use os_team.Base.Chain.{Ptr, null, update, Chain, All}
use os_team.Base.Chain.Write.{Chain-head, Chain-update}
use os_team.Queues.State.{Que}
use os_team.Queues.Qnodes.{take_qnode, qnode_alloc}
use os_team.Queues.Model.{View, Owner, Models}
use os_team.Queues.Model.Frame.{Same, map-Same, IsQueue-Same}
use os_team.Queues.Model.Nodes.{All-update}

-- `n` is free to be used, with both of its fields cleared, and the queues are as they were.
pub record Taken (s : Que) (v : View) (r : ℕ) (n : Ptr) (s' : Que) : Type 0 where
  pub model : Models s' (record v { room = r })
  pub unowned : model.own n ≡ 0
  pub ne_null : n ≢ null
  pub unlinked : s'.next_of n ≡ null
  pub empty : s'.item_of n ≡ null
  pub queues : s'.queues ≡ s.queues
  pub flags : s'.queue_free ≡ s.queue_free

module _ {s : Que} {v : View} (m : Models s v) (rest : List Ptr)
    (split : m.free ≡ s.free_qnodes ∷ rest) where
  abbrev n : Ptr
  n = s.free_qnodes

  abbrev taken : Que
  taken = record s {
    free_qnodes = s.next_of n;
    next_of = update s.next_of n null;
    item_of = update s.item_of n null;
  }

  abbrev own' : Owner
  own' = update m.own n 0

  pool_split : Chain s.next_of s.free_qnodes (n ∷ rest)
  pool_split = subst (Chain s.next_of s.free_qnodes) split m.pool

  pool_owned_split : All (λ a. m.own a ≡ 1) (n ∷ rest)
  pool_owned_split = subst (All (λ a. m.own a ≡ 1)) split m.pool_owned

  Same-of : (t : ℕ) → t ≢ 1 → t ≢ 0 → Same m.own own' s taken t
  Same-of t ne nz a o =
      let owner : m.own n ≡ 1 = pool_owned_split.0 in
      let apart : a ≢ n = ground arith in (ground arith, ground arith, ground arith)

  taken-Models : Models taken (record v { room = length rest })
  taken-Models = record {
    own = own';
    free = rest;
    nodes = m.nodes;
    pool = Chain-update s.next_of n null (s.next_of n) rest (pool_split.2) (pool_split.3);
    pool_owned = All-update m.own n 1 0 rest pool_split.2 pool_owned_split.1;
    room = refl;
    n_queues = m.n_queues;
    queue = λ i q e.
        IsQueue-Same m.own own' s taken i q (m.nodes i)
          (Same-of (i + 2) (omega arith) (omega arith)) (m.queue i q e);
    items = λ i q e.
        m.items i q e
        ∙ sym (
            map-Same m.own own' s taken (i + 2) (Same-of (i + 2) (omega arith) (omega arith))
              (m.nodes i) (m.queue i q e).owned);
    order = m.order;
  }

  take-Taken : Returns (Taken s v (length rest)) (take_qnode s)
  unfolding take_qnode taken-Models
  take-Taken =
      let found : (n == null) ≡ false = ground (arith, pool_split.1) in
      rw found (
        returns (record {
          model = taken-Models;
          unowned = ground arith;
          ne_null = pool_split.1;
          unlinked = ground arith;
          empty = ground arith;
          queues = refl;
          flags = refl;
        }))

cons_of_length :
    (xs : List Ptr) (r : ℕ)
    → length xs ≡ suc r
    → (x : Ptr) × (rest : List Ptr) × (xs ≡ x ∷ rest) × (length rest ≡ r)
cons_of_length [] r e = absurd (omega arith)
cons_of_length (x ∷ xs) r e = (x, xs, refl, omega arith)

-- With a free node left, `qnode_alloc` returns the address of one: it is not NULL, nobody has it, its
-- link and its data are cleared, and the queues have the entries they had, with one node fewer free.
pub qnode_alloc-Taken :
    {s : Que} {v : View} (m : Models s v) (r : ℕ)
    → v.room ≡ suc r
    → Returns (Taken s v r) (qnode_alloc s)
unfolding qnode_alloc
qnode_alloc-Taken {s} {v} m r room =
    let (n, rest, split, size) = cons_of_length m.free r (sym m.room ∙ room) in
    let first : s.free_qnodes ≡ n =
      Chain-head s.next_of s.free_qnodes (n ∷ rest)
        (subst (Chain s.next_of s.free_qnodes) split m.pool) in
    let split' : m.free ≡ s.free_qnodes ∷ rest = split ∙ ap (λ x. x ∷ rest) (sym first) in
    let some_free : (s.free_qnodes == null) ≡ false = ground (arith, pool_split m rest split') in
    rw some_free (subst (λ k. Returns (Taken s v k) (take_qnode s)) size (take-Taken m rest split'))
