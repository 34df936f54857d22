-- ===== src/Queues/Model.antt =====
-- What a state of kernel/queues.c stands for: the entries of each queue in order, and the number of
-- free qnodes. `Models` relates the two; the nodes of the free list and of the queues are apart,
-- because each address has one owner.
pub mod Frame
pub mod Nodes
pub mod Release
pub mod Fresh
use os_team.Base.{
  ℕ, suc, ◌+◌, ◌≤◌, ◌<◌, ◌≡◌, ◌==◌, if◌then◌else◌, some, List, [], ◌++◌, map, length, get_elem?,
}
use os_team.Base.Chain.{Ptr, null, Chain, All, last_or}
use os_team.Queues.State.{Queue, Que, n_queues}

-- The abstract view: `items` gives the entries of each queue, `order` its ordering function.
pub record View : Type 0 where
  pub room : ℕ
  pub items : ℕ → List Ptr
  pub order : ℕ → Ptr

-- The owner of an address: the free list is 1, queue `i` is `i + 2`, and 0 is nobody.
abbrev pub Owner : Type 0
Owner = Ptr → ℕ

pub record IsQueue (s : Que) (own : Owner) (i : ℕ) (q : Queue) (xs : List Ptr) : Type 0 where
  pub chain : Chain s.next_of q.head xs
  pub owned : All (λ a. own a ≡ i + 2) xs
  pub tail : q.tail ≡ last_or null xs
  pub count : q.count ≡ length xs

pub record Models (s : Que) (v : View) : Type 0 where
  pub own : Owner
  pub free : List Ptr
  pub nodes : ℕ → List Ptr
  pub pool : Chain s.next_of s.free_qnodes free
  pub pool_owned : All (λ a. own a ≡ 1) free
  pub room : v.room ≡ length free
  pub n_queues : length s.queues ≡ n_queues
  pub queue : (i : ℕ) (q : Queue) → get_elem? s.queues i ≡ some q → IsQueue s own i q (nodes i)
  pub items :
      (i : ℕ) (q : Queue) → get_elem? s.queues i ≡ some q → v.items i ≡ map s.item_of (nodes i)
  pub order : (i : ℕ) (q : Queue) → get_elem? s.queues i ≡ some q → q.compare ≡ v.order i

-- The view with the entries of one queue, and the room, given anew.
abbrev pub with_items : View → (room : ℕ) → ℕ → List Ptr → View
with_items v room i xs = record v { room = room; items = λ j. if j == i then xs else v.items j }
