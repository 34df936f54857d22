-- ===== src/Queues/Ops/Seek.antt =====
-- The traversal of a queue's nodes, and what a queue's count says of them.
use os_team.Base.{
  ℕ, suc, ◌+◌, ◌≡◌, ◌≢◌, refl, Bool, true, false, not, ◌&&◌, some, List, [], ◌∷◌, length, get_elem?,
  arith, ◌==◌, eq_of_==, ok,
}
use os_team.Base.Chain.{Ptr, null, Chain, last_or, head_or, before, after}
use os_team.Base.Chain.Write.{Chain-ne_null}
use os_team.Base.Chain.Split.{walk_lem}
use os_team.Queues.State.{Queue, Que, load}
use os_team.Queues.Model.Nodes.{All-last_or}
use os_team.Queues.Ops.{seek}
use os_team.Queues.Ops.{seek}

pub seek-found :
    (s : Que) (q : Queue) (go_on : Ptr → Bool) (xs : List Ptr)
    → Chain s.next_of q.head xs
    → q.count ≡ length xs
    → seek q go_on s ≡ ok (last_or null (before go_on xs), head_or null (after go_on xs)) s
unfolding seek
seek-found s q go_on xs chain size =
    ground (arith, walk_lem s.next_of go_on (q.count + 1) null q.head xs chain)

pub load-ok :
    (s : Que) (i : ℕ) (q : Queue) → get_elem? s.queues i ≡ some q → load (suc i) s ≡ ok q s
unfolding load
load-ok s i q here = ground arith

-- A queue with a count of 0 has no nodes, and any other one has a head and a tail.
pub nil_of_count :
    (q : Queue) (xs : List Ptr) → q.count ≡ length xs → (q.count == 0) ≡ true → xs ≡ []
nil_of_count q [] size zero' = refl
nil_of_count q (x ∷ xs) size zero' = absurd (omega (arith, eq_of_== q.count 0 zero'))

pub cons_of_count :
    (q : Queue) (xs : List Ptr)
    → q.count ≡ length xs
    → (q.count == 0) ≡ false
    → (x : Ptr) × (rest : List Ptr) × (xs ≡ x ∷ rest)
cons_of_count q [] size more = absurd (ground arith)
cons_of_count q (x ∷ xs) size more = (x, xs, refl)

module _ (next : Ptr → Ptr) (q : Queue) (x : Ptr) (rest : List Ptr)
    (chain : Chain next q.head (x ∷ rest)) (tail : q.tail ≡ last_or x rest) where
  pub occupied : (not (q.head == null) && not (q.tail == null)) ≡ true
  occupied =
      let last_ne =
        All-last_or (λ a. a ≢ null) x rest (Chain-ne_null next q.head (x ∷ rest) chain) in
      ground (arith, chain.0, chain.1)
