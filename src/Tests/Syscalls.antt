-- ===== src/Tests/Syscalls.antt =====
-- System calls of the current process of the sample, whose parent waits for it.
use os_team.Base.{
  ℕ, zero, suc, ◌%◌, ◌^◌, ◌<◌, ◌≡◌, ◌≢◌, ◌⊎◌, refl, arith, [], ◌∷◌, replicate, get_elem?, some, ok,
  Returns,
}
use os_team.Base.Chain.{null}
use os_team.Text.Words.{load_word, store_word}
use os_team.Procs.State.{Os, Pcb, State, clear_pcb, n_prios}
use os_team.Procs.Model.{Kernel}
use os_team.Clock.Table.{IsSchedulable}
use os_team.Clock.Entries.{Everyone}
use os_team.Clock.Running.{Running}
use os_team.Machine.{Machine, reg, eax_at}
use os_team.Syscalls.Simple.{sys_sleep, sys_getpid, sys_gettime, sys_getprio, s_bad_syscall}
use os_team.Syscalls.Exit.{reparent, reparent_rounds, sys_exit}
use os_team.Syscalls.Isr.{sys_isr}
use os_team.Syscalls.Sleeping.{Slept, sys_sleep-Slept}
use os_team.Syscalls.Adopt.{adopt, last_zombie}
use os_team.Syscalls.Reparent.{with_table, reparent-adopted}
use os_team.Syscalls.Ended.{Exited}
use os_team.Syscalls.Exiting.{sys_exit-Exited}
use os_team.Syscalls.Queries.{answered, queries-answered}
use os_team.Syscalls.Dispatched.{refused, sys_isr-Exited}
use os_team.Text.Words.Stored.{load_word-store_word}
use os_team.Tests.Sample.{process, view0, os0, os0-Kernel}
use os_team.Tests.Console.{cio0}

abbrev caller : Pcb
caller = record clear_pcb {
  context = 1000;
  stack = 512;
  parent = 5;
  pid = 9;
  state = State.running;
  quantum = 2;
}

abbrev waiter : Pcb
waiter = record clear_pcb {
  context = 2000;
  state = State.waiting;
  pid = 4;
  parent = 2;
  priority = 1;
}

abbrev os2 : Os
os2 = record os0 {
  ptable =
      caller
      ∷ process State.ready 1 0 0
      ∷ process State.sleeping 0 0 10
      ∷ process State.sleeping 2 0 50
      ∷ waiter
      ∷ record (process State.ready 0 0 0) { parent = 1 }
      ∷ replicate 19 clear_pcb;
  init_pcb = 2;
}

kernel2 : Kernel os2 view0
kernel2 = record {
  que = os0-Kernel.que;
  ready = refl;
  sleeping = refl;
  zombie = refl;
  blocked = refl;
  sioread = refl;
  fifo = os0-Kernel.fifo;
  timed = refl;
  procs = refl;
}

known2 :
    (ix : ℕ) (p : Pcb)
    → get_elem? os2.ptable ix ≡ some p
    → p.priority < n_prios
    → IsSchedulable os2.ptable (suc ix)
known2 ix p e low = record { ix = ix; pcb = p; points = refl; there = e; low = low }

everyone2 : Everyone (IsSchedulable os2.ptable) view0
everyone2 zero h = tt
everyone2 (suc zero) h = (known2 1 (process State.ready 1 0 0) refl (omega arith), tt)
everyone2 (suc (suc zero)) h = tt
everyone2 (suc (suc (suc zero))) h = (
  known2 2 (process State.sleeping 0 0 10) refl (omega arith),
  (known2 3 (process State.sleeping 2 0 50) refl (omega arith), tt),
)
everyone2 (suc (suc (suc (suc i)))) h = absurd (omega arith)

running2 : Running os2 view0
running2 = record {
  kernel = kernel2;
  everyone = everyone2;
  ix = 0;
  pcb = caller;
  current = refl;
  there = refl;
  low = omega arith;
  alive = omega arith;
  byte = omega arith;
  spare = omega arith;
  fits = omega arith;
}

-- The first argument of the caller, at 1076, is 30.
abbrev machine2 : Machine
machine2 = record {
  clk = record { os = os2; system_time = 9; pinwheel = 99; pindex = 0 };
  cio = cio0;
  mem = store_word 1076 30 (λ _. 0);
  keys = [];
}

saved2 : caller.context ≢ null
saved2 = omega arith

sys_sleep-Slept_example :
    Returns (Slept machine2 running2 (load_word machine2.mem 1076)) (sys_sleep 1 machine2)
unfolding running2
sys_sleep-Slept_example = sys_sleep-Slept machine2 running2 1 2 [] saved2 (omega arith) refl

-- The process at `&ptable[5]` gets a new parent.
reparent-adopted_example :
    reparent reparent_rounds 1 null os2
    ≡ ok (last_zombie 1 0 null os2.ptable) (with_table os2 (adopt 2 1 0 os2.ptable))
reparent-adopted_example = reparent-adopted 0 null os2 (omega arith) refl (omega arith)

none_exited : last_zombie 1 0 null os2.ptable ≡ null
unfolding last_zombie
none_exited = refl

sys_exit-Exited_example :
    Returns (Exited machine2 running2 4 waiter (load_word machine2.mem 1076)) (sys_exit 1 machine2)
unfolding running2
sys_exit-Exited_example =
    sys_exit-Exited machine2 running2 4 waiter 1 2 [] saved2 refl refl refl (omega arith)
      (omega arith) (omega arith) (omega arith) none_exited (omega arith) (omega arith) refl

queries-answered_example :
    (sys_getpid 1 machine2 ≡ ok tt (answered machine2 caller 9))
    × (sys_gettime 1 machine2 ≡ ok tt (answered machine2 caller 9))
    × ((load_word machine2.mem 1076 ≡ 0) ⊎ (load_word machine2.mem 1076 ≡ 9)
        → sys_getprio 1 machine2 ≡ ok tt (answered machine2 caller 0))
    × ((v : ℕ)
        → reg 1 eax_at (answered machine2 caller v) ≡ ok (v % 2 ^ 32) (answered machine2 caller v))
queries-answered_example = queries-answered machine2 0 caller refl saved2

-- The code of the call, at 1048, is out of range, or that of `sys_gettime`.
abbrev machine3 : Machine
machine3 = record machine2 { mem = store_word 1048 2989 machine2.mem }

abbrev machine4 : Machine
machine4 = record machine2 { mem = store_word 1048 8 machine2.mem }

code3 : load_word machine3.mem 1048 ≡ 2989
code3 = load_word-store_word 1048 2989 machine2.mem

sys_isr-Exited_example :
    Returns
      (Exited (refused machine3 running2) running2 4 waiter s_bad_syscall)
      (sys_isr 7 machine3)
unfolding running2
sys_isr-Exited_example =
    sys_isr-Exited machine3 running2 7 saved2 4 waiter 1 2 [] (omega (arith, code3)) refl refl refl
      (omega arith) (omega arith) (omega arith) (omega arith) none_exited (omega arith)
      (omega arith) refl
