-- ===== src/Machine.antt =====
-- The state that the drivers and the system calls share, and how a system call reaches the memory and
-- the saved registers of a process.
pub mod Access
use os_team.Base.{
  ℕ, zero, suc, ◌+◌, ◌*◌, ◌/◌, ◌%◌, ◌^◌, Bool, not, ◌==◌, if◌then◌else◌, List, [], ◌∷◌, Cmd, pure,
  get, put, halt, fault, embed, assert, ◌>>=◌, ◌>>◌,
}
use os_team.Base.Chain.{Ptr, null, update}
use os_team.Text.Memory.{Memory}
use os_team.Text.Words.{load_word, store_word}
use os_team.Procs.State.{Os, Pcb, PcbPtr}
use os_team.Procs.State
use os_team.Sio.{Sio}
use os_team.Console.{Cio}
use os_team.Clock.{Clk}

-- The modules' states, the bytes of the stacks and of the processes' memory, and the scan codes that the
-- keyboard has still to deliver.
pub record Machine : Type 0 where
  pub clk : Clk
  pub cio : Cio
  pub mem : Memory
  pub keys : List ℕ

abbrev pub with_os : Machine → Os → Machine
with_os m s = record m { clk = record (m.clk) { os = s } }

abbrev pub in_os {ℓ} : {A : Type ℓ} → Cmd Os A → Cmd Machine A
in_os c m = embed with_os m (c m.clk.os)

abbrev pub in_cio {ℓ} : {A : Type ℓ} → Cmd Cio A → Cmd Machine A
in_cio c m = embed (λ n t. record n { cio = t }) m (c m.cio)

abbrev pub in_sio {ℓ} : {A : Type ℓ} → Cmd Sio A → Cmd Machine A
in_sio c m = embed (λ n t. record n { cio = record (n.cio) { sio = t } }) m (c m.cio.sio)

-- `context_t`: its size, and where the fields are that the kernel uses by name.
abbrev pub context_size : ℕ
context_size = 72

abbrev pub ebp_at : ℕ
ebp_at = 28

abbrev pub esp_at : ℕ
esp_at = 32

abbrev pub eax_at : ℕ
eax_at = 48

-- `(pcb)->context`, for an access behind it.
unfoldable pub context_of : PcbPtr → Cmd Machine Ptr
context_of pcb = do
  p ← in_os (State.load pcb)
  if p.context == null then halt fault else pure p.context

-- `REG(pcb,x)`, of the register at an offset.
unfoldable pub reg : PcbPtr → (at : ℕ) → Cmd Machine ℕ
reg pcb at = do c ← context_of pcb; m ← get; pure (load_word m.mem (c + at))

unfoldable pub set_reg : PcbPtr → (at v : ℕ) → Cmd Machine (Unit {0})
set_reg pcb at v = do
  c ← context_of pcb
  m ← get
  put (record m { mem = store_word (c + at) v m.mem })

-- `RET(pcb) = v`
abbrev pub set_ret : PcbPtr → ℕ → Cmd Machine (Unit {0})
set_ret pcb v = set_reg pcb eax_at v

-- `ARG(pcb,n)`
abbrev pub arg : PcbPtr → ℕ → Cmd Machine ℕ
arg pcb n = reg pcb (context_size + 4 * n)

abbrev pub set_arg : PcbPtr → (n v : ℕ) → Cmd Machine (Unit {0})
set_arg pcb n v = set_reg pcb (context_size + 4 * n) v

-- Characters stored from an address on.
unfoldable pub store_bytes : Ptr → List ℕ → Memory → Memory
store_bytes p [] m = m
store_bytes p (c ∷ cs) m = store_bytes (p + 1) cs (update m p c)

-- `pcb->state = state`
abbrev pub set_state : PcbPtr → State.State → Cmd Machine (Unit {0})
set_state pcb st = do p ← in_os (State.load pcb); in_os (State.store pcb (record p { state = st }))
