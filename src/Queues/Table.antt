-- ===== src/Queues/Table.antt =====
-- The array of queues of kernel/queues.c: initialising the module, allocating and freeing a queue.
pub mod Start
use os_team.Base.{
  ℕ, suc, ◌+◌, ◌==◌, if◌then◌else◌, Option, none, some, List, [], ◌∷◌, Cmd, pure, get, put, halt,
  fault, panic, ◌>>=◌, ◌>>◌, get_elem?, set, replicate,
}
use os_team.Base.Chain.{Ptr, null}
use os_team.Queues.State.{
  Queue, Que, QueuePtr, n_queues, que_free_flag, que_inuse_flag, que_ix, load, store,
}
use os_team.Queues.Qnodes.{qnode_add_page}

abbrev pub clear_queue : Ptr → Queue
clear_queue compare = record { head = null; tail = null; count = 0; compare = compare }

-- `que_init`
unfoldable pub init : Cmd Que (Unit {0})
init = do
  s ← get
  put (record s {
    queues = replicate n_queues (clear_queue null);
    queue_free = replicate n_queues que_free_flag;
    free_qnodes = null;
  })
  qnode_add_page

-- The scan of `que_alloc` for the first free queue, from index `i` on.
unfoldable pub find_free : ℕ → List ℕ → Option ℕ
find_free i [] = none
find_free i (flag ∷ flags) = if flag == 0 then find_free (i + 1) flags else some i

-- `que_alloc`; the result is NULL if no queue is free.
unfoldable pub alloc : Ptr → Cmd Que QueuePtr
alloc compare = do
  s ← get
  elim (find_free 0 s.queue_free) [
    | none ↦ pure null
    | some i ↦ do
      put (record s {
        queue_free = set s.queue_free i que_inuse_flag;
        queues = set s.queues i (clear_queue compare);
      })
      pure (suc i)
  ]

-- The checks with which `que_free` and `que_length` begin: the index of a queue in use.
unfoldable pub used_ix : QueuePtr → Cmd Que ℕ
used_ix q s = elim (que_ix q) [
  | none ↦ halt panic s
  | some ix ↦ elim (get_elem? s.queue_free ix) [
    | none ↦ halt fault s
    | some flag ↦ if flag == 0 then pure ix s else halt panic s
  ]
]

-- `que_free`
unfoldable pub free : QueuePtr → Cmd Que (Unit {0})
unfolding used_ix
free q = do
  ix ← used_ix q
  s ← get
  put (record s { queue_free = set s.queue_free ix que_free_flag })
  store q (clear_queue null)

-- `que_length`
unfoldable pub length : QueuePtr → Cmd Que ℕ
unfolding used_ix
length q = do ix ← used_ix q; v ← load q; pure v.count
