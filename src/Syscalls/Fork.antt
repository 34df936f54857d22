-- ===== src/Syscalls/Fork.antt =====
-- sys_fork and sys_exec of kernel/syscalls.c, and stk_setup of kernel/stacks.c.
use os_team.Base.{
  ℕ, zero, suc, ◌+◌, ◌-◌, ◌*◌, ◌/◌, ◌%◌, ◌^◌, not, ◌==◌, if◌then◌else◌, add32, Option, none, some,
  Cmd, pure, get, put, halt, out_of_fuel, assert, embed, ◌>>=◌, ◌>>◌,
}
use os_team.Base.Chain.{Ptr, null}
use os_team.Text.Memory.{Memory, memclr, memmove}
use os_team.Text.Words.{load_word, store_word, blkmov, strlen}
use os_team.Stacks
use os_team.Procs.State.{PcbPtr, State, clear_pcb, load, store, in_stk}
use os_team.Procs.Table.{pcb_alloc, pcb_free}
use os_team.Procs.Sched.{schedule}
use os_team.Machine.{Machine, in_os, context_size, ebp_at, esp_at, arg, reg, set_reg, set_ret}
use os_team.Syscalls.Simple.{s_error}

abbrev pub stack_size : ℕ
stack_size = 8192

-- `stk_alloc`, and the bytes of the stack that it clears.
unfoldable pub alloc_stack : Cmd Machine (Option Ptr)
alloc_stack = do
  (_, stk) ← in_os (in_stk Stacks.alloc)
  m ← get
  elim stk [
    | none ↦ pure none
    | some p ↦ do put (record m { mem = memclr p stack_size m.mem }); pure (some p)
  ]

-- The address of the argument pointer that `stk_setup` makes room for, with `argbytes` for the string.
abbrev pub avptr_of : (stk : Ptr) (argbytes : ℕ) → Ptr
avptr_of stk argbytes = (stk + stack_size - 4 * (argbytes / 4 + 2)) / 16 * 16

-- The string's bytes with the NUL, rounded up to words.
abbrev pub argbytes_of : (len : ℕ) → ℕ
argbytes_of len = (len + 4) / 4 * 4

-- The context that `stk_setup` fills in: `eflags`, `eip`, `cs`, `ss`, `ds`, `es`, `fs` and `gs`.
unfoldable pub fill_context : (ctx : Ptr) (entry : ℕ) → Memory → Memory
fill_context ctx entry m = store_word (ctx + 4) 24 (
    store_word (ctx + 8) 24 (
      store_word (ctx + 12) 24 (
        store_word (ctx + 16) 24 (
          store_word ctx 32 (
            store_word (ctx + 64) 16
              (store_word (ctx + 60) entry (store_word (ctx + 68) 514 m)))))))

-- `stk_setup`, where the string has `len` characters and `fake` is `user_locs[ULOC_FAKE]`: the context.
unfoldable pub stk_setup :
    (fake : ℕ) (stk : Ptr) (entry : ℕ) (args : Ptr) (len : ℕ) → Memory → Ptr × Memory
stk_setup fake stk entry args len m =
    let avptr = avptr_of stk (argbytes_of len) in
    let m1 = store_word avptr (avptr + 4) m in
    let m2 = memmove (avptr + 4) args (argbytes_of len) m1 in
    let m3 = store_word (avptr - 4) fake m2 in
    let ctx = avptr - 4 - context_size in (ctx, fill_context ctx entry m3)

-- `sys_exec`. A string longer than a stack is the end of the fuel.
unfoldable pub sys_exec : (fake : ℕ) → PcbPtr → Cmd Machine (Unit {0})
sys_exec fake pcb = do
  assert (not (pcb == null))
  where' ← arg pcb 1
  args ← arg pcb 2
  p ← in_os (load pcb)
  stk ← alloc_stack
  m ← get
  elim stk [
    | none ↦ set_ret pcb s_error
    | some new ↦ elim (strlen stack_size m.mem args) [
      | none ↦ halt out_of_fuel
      | some len ↦ do
        let (ctx, mem) = stk_setup fake new where' args len m.mem
        put (record m { mem = mem })
        in_os (store pcb (record p { context = ctx }))
        assert (not (ctx == null))
        in_os (in_stk (Stacks.free p.stack))
    ]
  ]

-- `*p += offset`
unfoldable pub shift_word : Ptr → (offset : ℕ) → Memory → Memory
shift_word p offset m = store_word p (add32 (load_word m p) offset) m

-- The loop along the saved frame pointers, with the rounds left: the last frame.
unfoldable pub follow : ℕ → (bp lastbp : Ptr) (offset : ℕ) → Cmd Memory Ptr
follow zero bp lastbp offset m = halt out_of_fuel m
follow (suc rounds) bp lastbp offset m =
    let moved = shift_word bp offset m in
    if bp == null then pure lastbp m else follow rounds (load_word moved bp) bp offset moved

abbrev follow_rounds : ℕ
follow_rounds = stack_size / 4 + 1

-- `REG(new,x) += offset` if the register is not zero.
unfoldable pub shift_reg : PcbPtr → (at offset : ℕ) → Cmd Machine (Unit {0})
shift_reg new at offset = do
  v ← reg new at
  if v == 0 then pure tt else set_reg new at (add32 v offset)

abbrev in_mem : {A : Type 0} → Cmd Memory A → Cmd Machine A
in_mem c m = embed (λ n t. record n { mem = t }) m (c m.mem)

-- The child's frame pointers and its argument, moved to its own stack.
unfoldable pub relocate : PcbPtr → (offset : ℕ) → Cmd Machine (Unit {0})
relocate new offset = do
  shift_reg new ebp_at offset
  shift_reg new esp_at offset
  bp ← reg new ebp_at
  lastbp ← in_mem (follow follow_rounds bp null offset)
  m ← get
  put (record m { mem = shift_word (lastbp + 8) offset m.mem })

abbrev prio_inherit : ℕ
prio_inherit = 128

-- The new process with a stack of its own.
unfoldable pub fork_into : (pcb new : PcbPtr) → (stk : Ptr) → Cmd Machine (Unit {0})
fork_into pcb new stk = do
  p ← in_os (load pcb)
  prio ← arg pcb 1
  m ← get
  let pid = m.clk.os.next_pid
  in_os (λ s. put (record s { next_pid = add32 pid 1 }) s)
  m1 ← get
  put (record m1 { mem = blkmov stk p.stack stack_size m1.mem })
  let offset = (stk + 2 ^ 32 - p.stack) % 2 ^ 32
  in_os (
      store new (record clear_pcb {
        state = State.new;
        stack = stk;
        parent = pcb;
        pid = pid;
        priority = if prio % 256 == prio_inherit then p.priority else prio % 256;
        context = add32 p.context offset;
      }))
  relocate new offset
  set_ret pcb pid
  set_ret new 0
  in_os (schedule new)

-- `sys_fork`
unfoldable pub sys_fork : PcbPtr → Cmd Machine (Unit {0})
sys_fork pcb = do
  assert (not (pcb == null))
  (_, found) ← in_os pcb_alloc
  elim found [
    | none ↦ set_ret pcb s_error
    | some new ↦ do
      stk ← alloc_stack
      elim stk [ none ↦ in_os (pcb_free new) >> set_ret pcb s_error | some s ↦ fork_into pcb new s ]
  ]
