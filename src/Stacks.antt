-- ===== src/Stacks.antt =====
-- kernel/stacks.c, built without STATIC_STACKS: process stacks and the list of those free for reuse.
use os_team.Base.{
  ℕ, ◌+◌, ◌-◌, ◌*◌, not, ◌==◌, if◌then◌else◌, Option, none, some, Cmd, pure, get, put, assert,
  embed, ◌>>=◌, ◌>>◌,
}
use os_team.Base.Chain.{Ptr, null, update}
use os_team.Kmem.State.{Km}
use os_team.Kmem.Pages.{page_alloc}
use os_team.Queues.State.{Status, success, failure}

-- The globals of the module, the first word of each free stack, and the allocator that stacks come
-- from. The other words of a stack are not kept.
pub record Stk : Type 0 where
  pub km : Km
  pub next_of : Ptr → Ptr
  pub free_stacks : Ptr
  pub kstack : Ptr
  pub kesp : Ptr

abbrev pub stack_pages : ℕ
stack_pages = 2

-- The words of a stack are four bytes each.
abbrev pub stack_words : ℕ
stack_words = 2048

new_stack : Cmd Stk Ptr
new_stack s = embed (λ t k. record t { km = k }) s (page_alloc stack_pages s.km)

reuse_stack : Cmd Stk Ptr
reuse_stack = do
  s ← get
  put (record s { free_stacks = s.next_of s.free_stacks })
  pure s.free_stacks

-- `stk_alloc`. The pointer, if any, is what is stored through the parameter. The new stack is
-- cleared, its first word too.
unfoldable pub alloc : Cmd Stk (Status × Option Ptr)
unfolding new_stack reuse_stack
alloc = do
  s ← get
  stk ← if s.free_stacks == null then new_stack else reuse_stack
  if stk == null then pure (failure, none) else do
    s ← get
    put (record s { next_of = update s.next_of stk null })
    pure (success, some stk)

-- `stk_free`
unfoldable pub free : Ptr → Cmd Stk (Unit {0})
free stk = do
  assert (not (stk == null))
  s ← get
  put (record s { next_of = update s.next_of stk s.free_stacks; free_stacks = stk })

-- `stk_init`; a failed allocation is a failed assertion.
unfoldable pub init : Cmd Stk (Unit {0})
unfolding alloc
init = do
  s ← get
  put (record s { free_stacks = null })
  (_, stk) ← alloc
  s ← get
  elim stk [
    | none ↦ assert (null == 1)
    | some kstack ↦ put (record s { kstack = kstack; kesp = kstack + 4 * (stack_words - 1) })
  ]
