-- ===== src/Syscalls/Queries.antt =====
-- sys_getpid, sys_gettime and sys_getprio of kernel/syscalls.c, and the dispatch of sys_isr.
use mathlib.Core.Path.{subst}
use os_team.Base.{
  ℕ, suc, ◌+◌, ◌%◌, ◌^◌, ◌≡◌, ◌≢◌, ◌⊎◌, refl, sym, inl, inr, true, false, ◌||◌, ltb, ◌==◌,
  if◌then◌else◌, some, get_elem?, arith, ok, Bool-cases,
}
use os_team.Base.Chain.{null}
use os_team.Text.Words.{load_word, store_word}
use os_team.Text.Words.Stored.{load_word-store_word}
use os_team.Queues.Ops.Dequeue.{address-ne_null}
use os_team.Procs.State.{Pcb}
use os_team.Machine.{Machine, reg, eax_at, context_size}
use os_team.Machine.Access.{in_os-load, reg-ok, set_reg-ok}
use os_team.Syscalls.Simple.{sys_getpid, sys_gettime, sys_getprio, s_bad_syscall}
use os_team.Syscalls.Exit.{sys_exit}
use os_team.Syscalls.Isr.{sys_isr, isr_for, call_handler, n_syscalls}

-- The machine with this result for the process: only the memory of its register is new.
abbrev pub answered : Machine → Pcb → ℕ → Machine
answered m p v = record m { mem = store_word (p.context + eax_at) v m.mem }

own_or_zero : (a b : ℕ) → (a ≡ 0) ⊎ (a ≡ b) → (a == 0 || (a == b)) ≡ true
own_or_zero a b (inl e) = ground arith
own_or_zero a b (inr e) = ground arith

module _ (m : Machine) (ix : ℕ) (p : Pcb) (here : get_elem? m.clk.os.ptable ix ≡ some p)
    (saved : p.context ≢ null) where
  -- The calls that only ask return, and what the process then finds in its result register, in 32 bits,
  -- is its pid, the system time, and its priority if it asked for that by 0 or by its own pid. They
  -- change nothing else.
  pub queries-answered :
      (sys_getpid (suc ix) m ≡ ok tt (answered m p p.pid))
      × (sys_gettime (suc ix) m ≡ ok tt (answered m p m.clk.system_time))
      × ((load_word m.mem (p.context + (context_size + 4)) ≡ 0)
            ⊎ (load_word m.mem (p.context + (context_size + 4)) ≡ p.pid)
          → sys_getprio (suc ix) m ≡ ok tt (answered m p p.priority))
      × ((v : ℕ) → reg (suc ix) eax_at (answered m p v) ≡ ok (v % 2 ^ 32) (answered m p v))
  unfolding sys_getpid sys_gettime sys_getprio
  queries-answered = (
    rw (address-ne_null ix, in_os-load m ix p here, set_reg-ok m ix p here saved eax_at p.pid) refl,
    rw (address-ne_null ix, set_reg-ok m ix p here saved eax_at m.clk.system_time) refl,
    λ own.
        let asked : (load_word m.mem (p.context + (context_size + 4)) == 0
              || (load_word m.mem (p.context + (context_size + 4)) == p.pid))
            ≡ true =
          own_or_zero (load_word m.mem (p.context + (context_size + 4))) p.pid own in
        rw
          (
            address-ne_null ix,
            reg-ok m ix p here saved (context_size + 4),
            in_os-load m ix p here,
            asked,
            set_reg-ok m ix p here saved eax_at p.priority,
          )
          refl,
    λ v.
        rw
          (
            reg-ok (answered m p v) ix p here saved eax_at,
            load_word-store_word (p.context + eax_at) v m.mem,
          )
          refl,
  )

  -- The system call interrupt calls the handler of the code in the current process's register; a code out
  -- of range ends the process with the status S_BAD_SYSCALL.
  pub sys_isr-call :
      (fake : ℕ)
      → m.clk.os.current ≡ suc ix
      → sys_isr fake m ≡ (
          if ltb (load_word m.mem (p.context + eax_at)) n_syscalls
          then call_handler fake (load_word m.mem (p.context + eax_at)) (suc ix) m
          else sys_exit
              (suc ix)
              (record m { mem = store_word (p.context + (context_size + 4)) s_bad_syscall m.mem }))
  unfolding sys_isr isr_for call_handler
  sys_isr-call fake cur =
      let code = load_word m.mem (p.context + eax_at) in
      let set = record m {
        mem = store_word (p.context + (context_size + 4)) s_bad_syscall m.mem;
      } in
      let ready : (p.context == null) ≡ false = ground (arith, saved) in
      subst
        (λ c. isr_for fake c m ≡ (
          if ltb code n_syscalls then call_handler fake code (suc ix) m else sys_exit (suc ix) set))
        (sym cur)
        (rw (address-ne_null ix, in_os-load m ix p here, ready, reg-ok m ix p here saved eax_at)
          (elim (Bool-cases (ltb code n_syscalls)) [
            | inl known ↦ rw known refl
            | inr bad ↦ rw (bad, set_reg-ok m ix p here saved (context_size + 4) s_bad_syscall) refl
          ]))
