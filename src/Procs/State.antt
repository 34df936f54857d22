-- ===== src/Procs/State.antt =====
-- The state of kernel/procs.c, and of the modules that it calls.
use os_team.Base.{
  ℕ, zero, suc, Bool, true, false, ◌==◌, ltb, if◌then◌else◌, Option, none, some, List, get_elem?,
  set, Cmd, pure, halt, fault, embed,
}
use os_team.Base.Int.{ℤ, pos, negsuc}
use os_team.Base.Chain.{Ptr, null}
use os_team.Stacks.{Stk}
use os_team.Queues.State.{Que, QueuePtr, Status}
use os_team.Queues.Ops

-- `enum state_e`
pub data State : Type 0 where
  unused new ready running sleeping blocked waiting zombie : State

-- A `pcb_t *`: NULL is 0, and `&ptable[i]` is `suc i`.
abbrev pub PcbPtr : Type 0
PcbPtr = ℕ

-- `pcb_t`, without its filler.
pub record Pcb : Type 0 where
  pub context : Ptr
  pub stack : Ptr
  pub parent : PcbPtr
  pub wakeup : ℕ
  pub status : ℕ
  pub pid : ℕ
  pub state : State
  pub priority : ℕ
  pub quantum : ℕ

-- What `memclr` leaves.
abbrev pub clear_pcb : Pcb
clear_pcb = record {
  context = null;
  stack = null;
  parent = null;
  wakeup = 0;
  status = 0;
  pid = 0;
  state = unused;
  priority = 0;
  quantum = 0;
}

-- The globals of the module, and the state of the queue and the stack modules. `que` holds the page
-- allocator too; the four fields after it are those of the stack module.
pub record Os : Type 0 where
  pub que : Que
  pub free_stacks : Ptr
  pub stack_next : Ptr → Ptr
  pub kstack : Ptr
  pub kesp : Ptr
  pub ptable : List Pcb
  pub ready : List QueuePtr
  pub sleeping : QueuePtr
  pub zombie : QueuePtr
  pub blocked : QueuePtr
  pub sioread : QueuePtr
  pub current : PcbPtr
  pub init_pcb : PcbPtr
  pub next_pid : ℕ

abbrev pub n_procs : ℕ
n_procs = 25

abbrev pub n_prios : ℕ
n_prios = 3

abbrev pub first_user_pid : ℕ
first_user_pid = 2

abbrev pub q_std : ℕ
q_std = 3

abbrev pub is_unused : State → Bool
is_unused unused = true
is_unused _ = false

-- `*p`, a fault at NULL and outside the table.
unfoldable pub load : PcbPtr → Cmd Os Pcb
load zero s = halt fault s
load (suc ix) s = elim (get_elem? s.ptable ix) [ none ↦ halt fault s | some p ↦ pure p s ]

abbrev pub with_pcb : Os → ℕ → Pcb → Os
with_pcb s ix p = record s { ptable = set s.ptable ix p }

-- A write of the block that the pointer names, behind a `load`.
unfoldable pub store : PcbPtr → Pcb → Cmd Os (Unit {0})
store zero v s = halt fault s
store (suc ix) v s = pure tt (with_pcb s ix v)

-- `pcb_ix`; `none` is -1.
unfoldable pub pcb_ix : PcbPtr → Option ℕ
pcb_ix zero = none
pcb_ix (suc ix) = if ltb ix n_procs then some ix else none

abbrev pub with_que : Os → Que → Os
with_que s q = record s { que = q }

-- A command of the queue module, which may call ordering functions that read the process table.
abbrev pub in_que {ℓ} : {A : Type ℓ} → Cmd Que A → Cmd Os A
in_que m s = embed with_que s (m s.que)

-- A command of the stack module.
abbrev pub to_stk : Os → Stk
to_stk s = record {
  km = s.que.km;
  next_of = s.stack_next;
  free_stacks = s.free_stacks;
  kstack = s.kstack;
  kesp = s.kesp;
}

abbrev pub with_stk : Os → Stk → Os
with_stk s t = record s {
  que = record (s.que) { km = t.km };
  free_stacks = t.free_stacks;
  stack_next = t.next_of;
  kstack = t.kstack;
  kesp = t.kesp;
}

abbrev pub in_stk {ℓ} : {A : Type ℓ} → Cmd Stk A → Cmd Os A
in_stk m s = embed with_stk s (m (to_stk s))

-- The wakeup time of the process that a pointer names.
abbrev pub wakeup_at : List Pcb → PcbPtr → ℕ
wakeup_at table zero = 0
wakeup_at table (suc ix) = elim (get_elem? table ix) [ none ↦ 0 | some p ↦ p.wakeup ]

-- `comp_wakeup`
unfoldable pub comp_wakeup : List Pcb → PcbPtr → PcbPtr → ℤ
comp_wakeup table p1 p2 =
    let w1 = wakeup_at table p1 in
    let w2 = wakeup_at table p2 in if ltb w1 w2 then negsuc 0 else if w1 == w2 then pos 0 else pos 1

-- The address of `comp_wakeup`, and a call through a pointer: no other ordering function exists.
abbrev pub comp_wakeup_ptr : Ptr
comp_wakeup_ptr = 1

abbrev pub call : List Pcb → Ptr → PcbPtr → PcbPtr → ℤ
call table f p1 p2 = if f == comp_wakeup_ptr then comp_wakeup table p1 p2 else pos 0

-- The kernel's use of `que_insert`.
abbrev pub que_insert : QueuePtr → PcbPtr → Cmd Os Status
que_insert q p s = in_que (Ops.insert (call s.ptable) q p) s

-- The address of a local variable, for the parameters through which results are returned.
abbrev pub local : Ptr
local = 4
