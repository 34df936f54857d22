-- ===== src/Syscalls/Told.antt =====
-- status_return of kernel/syscalls.c, and the end of sys_exit.
use os_team.Base.{
  ℕ, suc, ◌+◌, ◌≡◌, ◌≢◌, refl, inl, inr, true, false, ◌==◌, if◌then◌else◌, some, get_elem?, ◌>>◌,
  Bool-cases, ok,
}
use os_team.Base.Chain.{null}
use os_team.Text.Memory.{Memory}
use os_team.Text.Words.{load_word, store_word}
use os_team.Queues.Ops.Dequeue.{address-ne_null}
use os_team.Procs.State.{Pcb}
use os_team.Procs.Table.{pcb_zombify, pcb_cleanup}
use os_team.Procs.Sched.{schedule}
use os_team.Machine.{Machine, in_os, context_size, eax_at}
use os_team.Machine.Access.{in_os-load, reg-ok, set_reg-ok, in_os-seq}
use os_team.Syscalls.Exit.{status_return, leave, is_waiting}

-- What `status_return` leaves in memory.
abbrev pub told : (parent child : Pcb) → Memory → Memory
told parent child mem =
    let mem1 = store_word (parent.context + eax_at) child.pid mem in
    let ptr = load_word mem1 (parent.context + (context_size + 4)) in
    if ptr == null then mem1 else store_word ptr child.status mem1

-- `status_return` stores the pid of the child as the result of the parent's call, and the child's status
-- where the parent's argument points, unless that is NULL.
pub status_return-told :
    (m : Machine) (px ix : ℕ) (parent child : Pcb)
    → get_elem? m.clk.os.ptable px ≡ some parent
    → get_elem? m.clk.os.ptable ix ≡ some child
    → parent.context ≢ null
    → status_return (suc px) (suc ix) m ≡ ok tt (record m { mem = told parent child m.mem })
unfolding status_return
status_return-told m px ix parent child there here saved =
    let mem1 = store_word (parent.context + eax_at) child.pid m.mem in
    let m1 : Machine = record m { mem = mem1 } in
    let ptr = load_word mem1 (parent.context + (context_size + 4)) in
    rw
      (
        address-ne_null px,
        address-ne_null ix,
        in_os-load m ix child here,
        set_reg-ok m px parent there saved eax_at child.pid,
        reg-ok m1 px parent there saved (context_size + 4),
      )
      (elim (Bool-cases (ptr == null)) [ inl none ↦ rw none refl | inr to ↦ rw to refl ])

-- The end of `sys_exit` is a command of the process module, after the status is returned to a parent that
-- waits.
pub leave-waiting :
    (m : Machine) (px ix : ℕ) (parent child : Pcb)
    → get_elem? m.clk.os.ptable px ≡ some parent
    → get_elem? m.clk.os.ptable ix ≡ some child
    → parent.context ≢ null
    → is_waiting parent.state ≡ true
    → leave (suc px) (suc ix) m
      ≡ in_os
          (schedule (suc px) >> pcb_cleanup (suc ix))
          (record m { mem = told parent child m.mem })
unfolding leave
leave-waiting m px ix parent child there here saved waits =
    rw
      (
        in_os-load m px parent there,
        waits,
        status_return-told m px ix parent child there here saved,
      )
      (in_os-seq (schedule (suc px)) (pcb_cleanup (suc ix))
        (record m { mem = told parent child m.mem }))

pub leave-zombie :
    (m : Machine) (px ix : ℕ) (parent : Pcb)
    → get_elem? m.clk.os.ptable px ≡ some parent
    → is_waiting parent.state ≡ false
    → leave (suc px) (suc ix) m ≡ in_os (pcb_zombify (suc ix)) m
unfolding leave
leave-zombie m px ix parent there goes_on = rw (in_os-load m px parent there, goes_on) refl
