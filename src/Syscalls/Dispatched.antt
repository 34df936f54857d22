-- ===== src/Syscalls/Dispatched.antt =====
-- sys_isr of kernel/syscalls.c with the handlers that it calls, on a running system.
use mathlib.Core.Path.{subst}
use os_team.Base.{
  ℕ, suc, ◌+◌, ◌^◌, ◌≤◌, ◌<◌, ◌≡◌, ◌≢◌, false, ltb, ◌==◌, if◌then◌else◌, some, List, ◌∷◌, length,
  get_elem?, arith, Returns,
}
use os_team.Base.Chain.{null}
use os_team.Text.Words.{load_word, store_word}
use os_team.Text.Words.Stored.{load_word-store_word}
use os_team.Queues.Model.{View}
use os_team.Procs.State.{Pcb, PcbPtr, n_prios, is_unused}
use os_team.Procs.Model.{zombie_ix}
use os_team.Procs.Table.{scan}
use os_team.Clock.Running.{Running}
use os_team.Machine.{Machine, eax_at, context_size}
use os_team.Syscalls.Simple.{s_bad_syscall}
use os_team.Syscalls.Adopt.{last_zombie}
use os_team.Syscalls.Isr.{sys_isr, n_syscalls}
use os_team.Syscalls.Exit.{sys_exit}
use os_team.Syscalls.Ended.{Exited}
use os_team.Syscalls.Exiting.{sys_exit-Exited}
use os_team.Syscalls.Sleeping.{first_arg, Slept}
use os_team.Syscalls.Waits.{is_exited, Waited}
use os_team.Syscalls.Queries.{answered, sys_isr-call}

-- The machine with S_BAD_SYSCALL as the first argument of the process.
abbrev pub refused : (m : Machine) {v : View} → Running m.clk.os v → Machine
refused m k = record m { mem = store_word (k.pcb.context + (context_size + 4)) s_bad_syscall m.mem }

-- The code of the system call.
abbrev pub code_of : (m : Machine) {v : View} → Running m.clk.os v → ℕ
code_of m k = load_word m.mem (k.pcb.context + eax_at)

-- What the process that waits, sleeps, or asks for its pid or the time gets.
abbrev pub Served :
    (m : Machine) {v : View} → Running m.clk.os v → (code : ℕ) → Unit {0} → Machine → Type 0
Served m k code r m' =
    if code == 1
    then Waited m k (scan (is_exited (suc k.ix)) 0 m.clk.os.ptable) r m'
    else if code == 6
    then Slept m k (first_arg m k) r m'
    else m' ≡ answered m k.pcb (if code == 7 then k.pcb.pid else m.clk.system_time)

module _ (m : Machine) {v : View} (k : Running m.clk.os v) (fake : ℕ)
    (saved : k.pcb.context ≢ null) where
  -- The system call interrupt with a code out of range, of a process that may exit (as for `sys_exit`),
  -- returns, and the process has exited with the status S_BAD_SYSCALL: a parent that waits has got it, and
  -- the process is a zombie otherwise.
  pub sys_isr-Exited :
      (px : ℕ) (parent : Pcb) (i : ℕ) (x : PcbPtr) (xs : List PcbPtr)
      → n_syscalls ≤ code_of m k
      → k.pcb.parent ≡ suc px
      → get_elem? m.clk.os.ptable px ≡ some parent
      → is_unused parent.state ≡ false
      → px ≢ k.ix
      → parent.priority < n_prios
      → parent.context ≢ null
      → m.clk.os.init_pcb ≢ suc k.ix
      → last_zombie (suc k.ix) 0 null m.clk.os.ptable ≡ null
      → length (v.items zombie_ix) + 1 < 2 ^ 32
      → i < n_prios
      → v.items i ≡ x ∷ xs
      → Returns (Exited (refused m k) k px parent s_bad_syscall) (sys_isr fake m)
  sys_isr-Exited px parent i x xs large at there used apart low ready other none few small e =
      let bad : ltb (code_of m k) n_syscalls ≡ false = ground arith in
      let status : load_word (refused m k).mem (k.pcb.context + (context_size + 4))
          ≡ s_bad_syscall =
        load_word-store_word (k.pcb.context + (context_size + 4)) s_bad_syscall m.mem in
      rw (sys_isr-call m k.ix k.pcb k.there saved fake k.current, bad)
        (subst
          (λ st. Returns (Exited (refused m k) k px parent st) (sys_exit (suc k.ix) (refused m k)))
          status
          (sys_exit-Exited (refused m k) k px parent i x xs saved at there used apart low ready
            other none few small e))
