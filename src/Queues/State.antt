-- ===== src/Queues/State.antt =====
-- The state of kernel/queues.c, and access to one queue of its array.
use os_team.Base.{
  ℕ, zero, suc, ltb, if◌then◌else◌, Option, none, some, List, get_elem?, set, Cmd, pure, halt,
  fault,
}
use os_team.Base.Chain.{Ptr}
use os_team.Kmem.State.{Km}

-- `struct queue_s`. `compare` is the address of the ordering function, NULL for a FIFO.
pub record Queue : Type 0 where
  pub head : Ptr
  pub tail : Ptr
  pub count : ℕ
  pub compare : Ptr

-- The globals of the module, the two fields of the `qnode_t` at each address, and the allocator that
-- pages come from. `queue_free` holds a byte for each queue.
pub record Que : Type 0 where
  pub km : Km
  pub item_of : Ptr → Ptr
  pub next_of : Ptr → Ptr
  pub free_qnodes : Ptr
  pub queues : List Queue
  pub queue_free : List ℕ

abbrev pub n_queues : ℕ
n_queues = 8

abbrev pub que_free_flag : ℕ
que_free_flag = 1

abbrev pub que_inuse_flag : ℕ
que_inuse_flag = 0

-- A `queue_t`: NULL is 0, and `&queues[i]` is `suc i`.
abbrev pub QueuePtr : Type 0
QueuePtr = ℕ

-- `enum ecode_e`, as far as this part of the kernel uses it.
pub data Status : Type 0 where
  success failure bad_param empty not_found no_pcbs no_qnodes : Status

-- `que_ix`; `none` is -1.
unfoldable pub que_ix : QueuePtr → Option ℕ
que_ix zero = none
que_ix (suc ix) = if ltb ix n_queues then some ix else none

-- `*q`, a fault at NULL and outside the array.
unfoldable pub load : QueuePtr → Cmd Que Queue
load zero s = halt fault s
load (suc ix) s = elim (get_elem? s.queues ix) [ none ↦ halt fault s | some q ↦ pure q s ]

abbrev pub with_queue : Que → ℕ → Queue → Que
with_queue s ix q = record s { queues = set s.queues ix q }

-- A write of the structure that `q` points to, behind a `load`.
unfoldable pub store : QueuePtr → Queue → Cmd Que (Unit {0})
store zero v s = halt fault s
store (suc ix) v s = pure tt (with_queue s ix v)

abbrev pub with_km : Que → Km → Que
with_km s k = record s { km = k }

pub Status-discrete : Discrete Status
Status-discrete = hlevel
