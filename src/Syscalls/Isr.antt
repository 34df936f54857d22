-- ===== src/Syscalls/Isr.antt =====
-- The system call interrupt, sys_isr of kernel/syscalls.c. Its message, and the end of the interrupt for
-- the interrupt controller, are left out.
use os_team.Base.{
  ℕ, not, ltb, ◌==◌, if◌then◌else◌, none, some, List, [], ◌∷◌, get_elem?, Cmd, get, halt, fault,
  assert, ◌>>=◌, ◌>>◌,
}
use os_team.Base.Chain.{null}
use os_team.Procs.State.{PcbPtr, load}
use os_team.Machine.{Machine, in_os, reg, set_arg, eax_at}
use os_team.Syscalls.Simple.{sys_sleep, sys_getpid, sys_gettime, sys_getprio, s_bad_syscall}
use os_team.Syscalls.Transfer.{sys_read, sys_write}
use os_team.Syscalls.Exit.{sys_exit, sys_wait}
use os_team.Syscalls.Fork.{sys_fork, sys_exec}

abbrev pub n_syscalls : ℕ
n_syscalls = 10

-- `syscalls`, by the codes of the system calls.
abbrev pub syscalls : (fake : ℕ) → List (PcbPtr → Cmd Machine (Unit {0}))
syscalls fake =
    sys_exit
    ∷ sys_wait
    ∷ sys_fork
    ∷ sys_exec fake
    ∷ sys_read
    ∷ sys_write
    ∷ sys_sleep
    ∷ sys_getpid
    ∷ sys_gettime
    ∷ sys_getprio
    ∷ []

abbrev sys_exit_code : ℕ
sys_exit_code = 0

-- The handler of a code in range.
unfoldable pub call_handler : (fake code : ℕ) → PcbPtr → Cmd Machine (Unit {0})
call_handler fake code pcb = elim (get_elem? (syscalls fake) code) [
  | none ↦ halt fault
  | some handler ↦ handler pcb
]

-- `sys_isr` on the current process; a code with the sign bit set, which is out of range too, counts as
-- large.
unfoldable pub isr_for : (fake : ℕ) (current : PcbPtr) → Cmd Machine (Unit {0})
isr_for fake current = do
  assert (not (current == null))
  p ← in_os (load current)
  assert (not (p.context == null))
  code ← reg current eax_at
  if ltb code n_syscalls
      then call_handler fake code current
      else (set_arg current 1 s_bad_syscall >> call_handler fake sys_exit_code current)

-- `sys_isr`
unfoldable pub sys_isr : (fake : ℕ) → Cmd Machine (Unit {0})
sys_isr fake = do m ← get; isr_for fake m.clk.os.current
