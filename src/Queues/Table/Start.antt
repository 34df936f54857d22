-- ===== src/Queues/Table/Start.antt =====
-- `que_init` of kernel/queues.c, and `qnode_add_page`.
use os_team.Base.{ℕ, ◌≡◌, ◌==◌, List, replicate, Cmd, ◌>>=◌, ◌>>◌, assert, not}
use os_team.Base.Chain.{Ptr, null, Chain}
use os_team.Kmem.Pool.{Pool}
use os_team.Queues.State.{Que, n_queues, que_free_flag}
use os_team.Queues.Qnodes.{new_page, free_from}
use os_team.Queues.Table.{clear_queue}

-- Every queue is free and empty, and these are the free qnodes.
pub record Started (s : Que) (free : List Ptr) : Type 0 where
  pub queues : s.queues ≡ replicate n_queues (clear_queue null)
  pub queue_free : s.queue_free ≡ replicate n_queues que_free_flag
  pub pool : Chain s.next_of s.free_qnodes free

-- `qnode_add_page` for any number of nodes.
page_of : ℕ → Cmd Que (Unit {0})
page_of n = new_page >>= λ block. assert (not (block == null)) >> free_from n block
