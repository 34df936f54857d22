-- ===== src/Queues/Ops.antt =====
-- The operations of kernel/queues.c on a queue's entries. `call f a b` is the result of calling the
-- ordering function at address `f`: it reads the entries' own memory.
pub mod Seek
pub mod Insert
pub mod Enqueue
pub mod Sorted
pub mod Unlink
pub mod Dequeue
pub mod Withdraw
use os_team.Base.{
  ◌+◌, ◌-◌, Bool, true, false, not, ◌&&◌, ltb, ◌==◌, if◌then◌else◌, add32, Option, none, some, Cmd,
  pure, get, put, halt, out_of_fuel, assert, ◌>>=◌, ◌>>◌,
}
use os_team.Base.Int.{ℤ, nonneg}
use os_team.Base.Chain.{Ptr, null, update, walk}
use os_team.Queues.State.{
  Queue, Que, QueuePtr, Status, success, bad_param, empty, not_found, no_qnodes, que_ix, load,
  store,
}
use os_team.Queues.Qnodes.{qnode_free, qnode_alloc}

abbrev pub is_valid : QueuePtr → Bool
is_valid q = elim (que_ix q) [ none ↦ false | some _ ↦ true ]

-- The traversal of a queue's nodes. It passes `count` of them at most.
unfoldable pub seek : Queue → (Ptr → Bool) → Cmd Que (Ptr × Ptr)
seek v go_on = do
  s ← get
  elim (walk s.next_of go_on (v.count + 1) null v.head) [
    | none ↦ halt out_of_fuel
    | some found ↦ pure found
  ]

abbrev pub set_next : Ptr → Ptr → Cmd Que (Unit {0})
set_next qn target s = pure tt (record s { next_of = update s.next_of qn target })

-- The first entry of a queue.
unfoldable pub insert_first : QueuePtr → Queue → Ptr → Cmd Que Status
insert_first q v qn = do
  assert (v.head == null && (v.tail == null))
  store q (record v { head = qn; tail = qn; count = 1 })
  pure success

-- FIFO: after the current last entry.
unfoldable pub append : QueuePtr → Queue → Ptr → Cmd Que Status
append q v qn = do
  set_next v.tail qn
  store q (record v { tail = qn; count = add32 v.count 1 })
  pure success

-- At the insertion point that the traversal found.
unfoldable pub link : QueuePtr → Queue → (qn prev curr : Ptr) → Cmd Que Status
link q v qn prev curr = do
  set_next qn curr
  if prev == null then store q (record v { head = qn; count = add32 v.count 1 }) else do
    set_next prev qn
    store q (record v { tail = if curr == null then qn else v.tail; count = add32 v.count 1 })
  pure success

module _ (call : Ptr → Ptr → Ptr → ℤ) where
  -- Before the first entry that must be after the value.
  unfoldable pub insert_ordered : QueuePtr → Queue → (qn item : Ptr) → Cmd Que Status
  insert_ordered q v qn item = do
    s ← get
    (prev, curr) ← seek v (λ c. nonneg (call v.compare item (s.item_of c)))
    link q v qn prev curr

  unfoldable pub insert_node : QueuePtr → (qn item : Ptr) → Cmd Que Status
  insert_node q qn item = do
    s ← get
    put (record s { item_of = update s.item_of qn item })
    v ← load q
    if v.count == 0 then insert_first q v qn else do
      assert (not (v.head == null) && not (v.tail == null))
      if v.compare == null then append q v qn else insert_ordered q v qn item

  -- `que_insert`
  unfoldable pub insert : QueuePtr → (item : Ptr) → Cmd Que Status
  unfolding insert_node
  insert q item = do
    assert (is_valid q)
    qn ← qnode_alloc
    if qn == null then pure no_qnodes else insert_node q qn item

-- `que_peek`. `out` is the parameter `data`; the second part of the result is what is stored through
-- it, if anything.
unfoldable pub peek : QueuePtr → (out : Ptr) → Cmd Que (Status × Option Ptr)
peek q out = do
  assert (not (q == null))
  if out == null then pure (bad_param, none) else do
    v ← load q
    if ltb v.count 1 then pure (empty, none) else do
      assert (not (v.head == null) && not (v.tail == null))
      s ← get
      pure (success, some (s.item_of v.head))

-- The end of `que_remove`: the first node is unlinked and freed.
unfoldable pub unlink_first : QueuePtr → Queue → Cmd Que (Unit {0})
unlink_first q v = do
  s ← get
  let head' = s.next_of v.head
  store q (record v {
    head = head';
    tail = if head' == null then null else v.tail;
    count = v.count - 1;
  })
  qnode_free v.head

-- `que_remove`
unfoldable pub remove : QueuePtr → (out : Ptr) → Cmd Que (Status × Option Ptr)
unfolding unlink_first
remove q out = do
  assert (not (q == null))
  if out == null then pure (bad_param, none) else do
    v ← load q
    if ltb v.count 1 then pure (empty, none) else do
      assert (not (v.head == null) && not (v.tail == null))
      s ← get
      unlink_first q v
      pure (success, some (s.item_of v.head))

-- The end of `que_remove_by`: `curr` is unlinked from behind `prev` and freed.
unfoldable pub unlink : QueuePtr → Queue → (prev curr : Ptr) → Cmd Que (Unit {0})
unlink q v prev curr = do
  s ← get
  let rest = s.next_of curr
  let tail' = if rest == null then prev else v.tail
  if prev == null
      then store q (record v { head = rest; tail = tail'; count = v.count - 1 })
      else do set_next prev rest; store q (record v { tail = tail'; count = v.count - 1 })
  qnode_free curr

-- `que_remove_by`
unfoldable pub remove_by : QueuePtr → (item : Ptr) → Cmd Que Status
unfolding unlink
remove_by q item = do
  assert (not (q == null))
  if item == null then pure bad_param else do
    v ← load q
    if ltb v.count 1 then pure empty else do
      assert (not (v.head == null) && not (v.tail == null))
      s ← get
      (prev, curr) ← seek v (λ c. not (item == s.item_of c))
      if curr == null then pure not_found else do unlink q v prev curr; pure success
