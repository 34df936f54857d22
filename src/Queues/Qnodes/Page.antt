-- ===== src/Queues/Qnodes/Page.antt =====
-- The loop of `qnode_add_page` over a new page.
use os_team.Base.{
  ℕ, zero, suc, ◌+◌, ◌≤◌, ◌<◌, ◌≡◌, ◌≢◌, refl, false, ◌==◌, List, [], ◌∷◌, length, arith, Returns,
  returns, mono,
}
use os_team.Base.Chain.{Ptr, null, update, has, Chain, All}
use os_team.Base.Chain.Write.{Chain-push}
use os_team.Queues.State.{Que}
use os_team.Queues.Qnodes.{qnode_free, free_from, qnode_size}

-- The free list after `n` nodes from `block` on are freed, where it was `xs`: the last one is first.
pub stacked : (n : ℕ) → (block : Ptr) → List Ptr → List Ptr
stacked zero block xs = xs
stacked (suc n) block xs = stacked n (block + qnode_size) (block ∷ xs)

pub length-stacked :
    (n : ℕ) (block : Ptr) (xs : List Ptr) → length (stacked n block xs) ≡ n + length xs
unfolding stacked
length-stacked zero block xs = omega arith
length-stacked (suc n) block xs = omega (arith, length-stacked n (block + qnode_size) (block ∷ xs))

-- Only the free list is new.
pub record Refilled (s : Que) (xs : List Ptr) (s' : Que) : Type 0 where
  pub chain : Chain s'.next_of s'.free_qnodes xs
  pub queues : s'.queues ≡ s.queues
  pub queue_free : s'.queue_free ≡ s.queue_free
  pub km : s'.km ≡ s.km

below-has : (a : Ptr) (xs : List Ptr) → All (λ x. x < a) xs → has a xs ≡ false
below-has a [] h = refl
below-has a (x ∷ xs) h = ground (arith, h.0, below-has a xs h.1)

below_more : (a b : Ptr) (xs : List Ptr) → a ≤ b → All (λ x. x < a) xs → All (λ x. x < b) xs
below_more a b [] le h = tt
below_more a b (x ∷ xs) le h = (omega (arith, h.0), below_more a b xs le h.1)

pub free_from-Refilled :
    (n : ℕ) (block : Ptr) (s : Que) (xs : List Ptr)
    → block ≢ null
    → All (λ x. x < block) xs
    → Chain s.next_of s.free_qnodes xs
    → Returns (λ _ s'. Refilled s (stacked n block xs) s') (free_from n block s)
unfolding free_from qnode_free stacked
free_from-Refilled zero block s xs ne low c =
    returns (record { chain = c; queues = refl; queue_free = refl; km = refl })
free_from-Refilled (suc n) block s xs ne low c =
    let some_block : (block == null) ≡ false = ground arith in
    let s1 : Que = record s {
      next_of = update s.next_of block s.free_qnodes;
      free_qnodes = block;
    } in
    let c1 : Chain s1.next_of s1.free_qnodes (block ∷ xs) =
      Chain-push s.next_of block s.free_qnodes xs ne (below-has block xs low) c in
    rw some_block (
      mono
        (free_from-Refilled n (block + qnode_size) s1 (block ∷ xs) (λ e. omega (arith, e))
          (omega arith, below_more block (block + qnode_size) xs (omega arith) low) c1)
        (λ _ s' r. record {
          chain = r.chain;
          queues = r.queues;
          queue_free = r.queue_free;
          km = r.km;
        }))
