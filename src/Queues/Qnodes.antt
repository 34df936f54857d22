-- ===== src/Queues/Qnodes.antt =====
-- The qnode allocator of kernel/queues.c.
pub mod Take
pub mod Page
use os_team.Base.{
  ℕ, zero, suc, ◌+◌, not, ◌==◌, if◌then◌else◌, Cmd, pure, get, put, assert, embed, ◌>>=◌, ◌>>◌,
}
use os_team.Base.Chain.{Ptr, null, update}
use os_team.Kmem.Pages.{page_alloc}
use os_team.Queues.State.{Que, with_km}

-- `sizeof(qnode_t)` and `QNODES_PER_PAGE`.
abbrev pub qnode_size : ℕ
qnode_size = 8

abbrev pub qnodes_per_page : ℕ
qnodes_per_page = 512

unfoldable pub qnode_free : Ptr → Cmd Que (Unit {0})
qnode_free qn = do
  assert (not (qn == null))
  s ← get
  put (record s { next_of = update s.next_of qn s.free_qnodes; free_qnodes = qn })

-- The loop over the new page, with the rounds left.
unfoldable pub free_from : ℕ → Ptr → Cmd Que (Unit {0})
unfolding qnode_free
free_from zero block = pure tt
free_from (suc rounds) block = qnode_free block >> free_from rounds (block + qnode_size)

unfoldable pub new_page : Cmd Que Ptr
new_page s = embed with_km s (page_alloc 1 s.km)

unfoldable pub qnode_add_page : Cmd Que (Unit {0})
unfolding new_page free_from
qnode_add_page = do block ← new_page; assert (not (block == null)); free_from qnodes_per_page block

-- The second half of `qnode_alloc`: the first free node, cleared; NULL if there is none.
pub take_qnode : Cmd Que Ptr
take_qnode = do
  s ← get
  let tmp = s.free_qnodes
  if tmp == null then pure null else do
    put (record s {
      free_qnodes = s.next_of tmp;
      next_of = update s.next_of tmp null;
      item_of = update s.item_of tmp null;
    })
    pure tmp

pub qnode_alloc : Cmd Que Ptr
unfolding take_qnode qnode_add_page
qnode_alloc = do s ← get; if s.free_qnodes == null then qnode_add_page else pure tt; take_qnode
