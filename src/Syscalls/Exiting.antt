-- ===== src/Syscalls/Exiting.antt =====
-- sys_exit of kernel/syscalls.c, called by the current process of a running system.
use mathlib.Core.Path.{subst}
use os_team.Base.{
  ℕ, zero, suc, ◌+◌, ◌-◌, ◌^◌, ◌<◌, ◌≡◌, ◌≢◌, refl, sym, ap, ◌∙◌, inl, inr, false, ◌&&◌, ◌==◌,
  if◌then◌else◌, some, List, [], ◌∷◌, length, get_elem?, set, length-set, get_elem?-set_self,
  get_elem?-set_ne, lt_of_get_elem?, arith, ◌>>◌, Bool-cases, Run, and_then, Returns, mono,
}
use os_team.Base.Chain.{null}
use os_team.Text.Words.{load_word}
use os_team.Queues.Model.{View}
use os_team.Queues.Ops.Dequeue.{address-ne_null}
use os_team.Procs.State.{Os, Pcb, PcbPtr, n_procs, n_prios, is_unused, with_pcb, store}
use os_team.Procs.Model.{Kernel-with_parts, zombie_ix}
use os_team.Procs.Table.{is_child, pcb_zombify, pcb_cleanup}
use os_team.Procs.Sched.{schedule, dispatch}
use os_team.Clock.Table.{All-set}
use os_team.Clock.Running.{Running}
use os_team.Clock.Switch.{Waiting}
use os_team.Machine.{Machine, with_os, in_os, context_size}
use os_team.Machine.Access.{in_os-load, reg-ok, in_os-Returns, in_os-seq}
use os_team.Syscalls.Exit.{exit_to, leave, is_waiting, sys_exit, reap_for_init}
use os_team.Syscalls.Adopt.{adopt, given, last_zombie}
use os_team.Syscalls.Reparent.{reparent-adopted}
use os_team.Syscalls.Zombify.{zombify-Resumes}
use os_team.Syscalls.Woken.{wake_parent-HandsOver}
use os_team.Syscalls.Exit.{is_zombie}
use os_team.Syscalls.Adopted.{length-adopt, adopt-entry, All-adopt}
use os_team.Syscalls.Told.{told, leave-waiting, leave-zombie}
use os_team.Syscalls.Ended.{orphaned, Exited}

-- The status of a process does not matter to who its parent's children are.
last_zombie-set :
    (pcb : PcbPtr) (i : ℕ) (found : PcbPtr) (table : List Pcb) (ix : ℕ) (p : Pcb) (status : ℕ)
    → get_elem? table ix ≡ some p
    → last_zombie pcb i found (set table ix (record p { status = status }))
      ≡ last_zombie pcb i found table
unfolding last_zombie
last_zombie-set pcb i found [] ix p status e = refl
last_zombie-set pcb i found (x ∷ xs) zero p status e =
    let same : p ≡ x = cc in
    ap
      (λ (q : Pcb).
        last_zombie pcb (i + 1)
          (if is_child pcb (suc i) q && is_zombie q.state then suc i else found) xs)
      same
last_zombie-set pcb i found (x ∷ xs) (suc ix) p status e =
    last_zombie-set pcb (i + 1) _ xs ix p status e

module _ (m : Machine) {v : View} (k : Running m.clk.os v) (px : ℕ) (parent : Pcb)
    (there : get_elem? m.clk.os.ptable px ≡ some parent) (apart : px ≢ k.ix) (status : ℕ)
    (low : parent.priority < n_prios) (parent_saved : parent.context ≢ null)
    (few : length (v.items zombie_ix) + 1 < 2 ^ 32) where
  exiting : Pcb
  exiting = record (k.pcb) { status = status }

  -- The process module after the children are given away.
  settled : Os
  settled = orphaned m.clk.os k status

  settled-Waiting : Waiting settled v
  unfolding settled exiting
  settled-Waiting =
      let s = m.clk.os in
      let table = adopt s.init_pcb (suc k.ix) 0 (set s.ptable k.ix exiting) in
      record {
        kernel = Kernel-with_parts k.kernel v s.que table k.kernel.que refl (
            length-adopt s.init_pcb (suc k.ix) 0 (set s.ptable k.ix exiting)
            ∙ length-set s.ptable k.ix exiting);
        everyone = λ i small.
            All-adopt s.init_pcb (suc k.ix) (set s.ptable k.ix exiting) (v.items i)
              (All-set s.ptable k.ix k.pcb exiting k.there refl (v.items i) (k.everyone i small));
        fits = omega (arith, k.fits);
      }

  parent-settled : (a : PcbPtr) × (get_elem? settled.ptable px ≡ some (given a parent))
  unfolding settled exiting
  parent-settled =
      adopt-entry m.clk.os.init_pcb (suc k.ix) 0 (set m.clk.os.ptable k.ix exiting) px parent
        (get_elem?-set_ne m.clk.os.ptable k.ix px exiting (λ e. apart (sym e)) ∙ there)

  child-settled : (b : PcbPtr) × (get_elem? settled.ptable k.ix ≡ some (given b exiting))
  unfolding settled exiting
  child-settled =
      adopt-entry m.clk.os.init_pcb (suc k.ix) 0 (set m.clk.os.ptable k.ix exiting) k.ix exiting
        (get_elem?-set_self m.clk.os.ptable k.ix exiting k.there)

  -- The last two statements of `sys_exit`.
  leave-Exited :
      (i : ℕ) (x : PcbPtr) (xs : List PcbPtr)
      → i < n_prios
      → v.items i ≡ x ∷ xs
      → Returns
          (Exited m k px parent status)
          ((leave (suc px) (suc k.ix) >> in_os dispatch) (with_os m settled))
  unfolding exiting settled
  leave-Exited i x xs small e =
      let m0 = with_os m settled in
      let (a, at_parent) = parent-settled in
      let (b, at_child) = child-settled in
      let w = settled-Waiting in
      let room : v.room ≡ suc (v.room - 1) = omega (arith, k.spare) in
      elim (Bool-cases (is_waiting parent.state)) [
        | inl waits ↦
            let m1 : Machine = record m0 { mem = told parent exiting m.mem } in
            let A = schedule (suc px) >> pcb_cleanup (suc k.ix) in
            let same : (leave (suc px) (suc k.ix) >> in_os dispatch) m0 ≡ in_os (A >> dispatch) m1 =
              ap (λ (r : Run Machine (Unit {0})). and_then r (λ _. in_os dispatch))
                (leave-waiting m0 px k.ix (given a parent) (given b exiting) at_parent at_child
                  parent_saved waits)
              ∙ in_os-seq A dispatch m1 in
            subst (λ r. Returns (Exited m k px parent status) r) (sym same)
              (mono
                (in_os-Returns m1 (A >> dispatch) (
                  wake_parent-HandsOver w (v.room - 1) px k.ix (given a parent) (given b exiting)
                    room at_parent at_child apart low k.fits))
                (λ _ m' (s, e', over). rw waits (
                  s,
                  e',
                  given a parent,
                  given b exiting,
                  (a, refl, at_parent),
                  (b, refl, at_child),
                  over,
                )))
        | inr goes_on ↦
            let same : (leave (suc px) (suc k.ix) >> in_os dispatch) m0
                ≡ in_os (pcb_zombify (suc k.ix) >> dispatch) m0 =
              ap (λ (r : Run Machine (Unit {0})). and_then r (λ _. in_os dispatch))
                (leave-zombie m0 px k.ix (given a parent) at_parent goes_on)
              ∙ in_os-seq (pcb_zombify (suc k.ix)) dispatch m0 in
            subst (λ r. Returns (Exited m k px parent status) r) (sym same)
              (mono
                (in_os-Returns m0 (pcb_zombify (suc k.ix) >> dispatch) (
                  zombify-Resumes w (v.room - 1) k.ix (given b exiting) room at_child few i x xs
                    small e))
                (λ _ m' (s, e', goes).
                  rw goes_on (s, e', given b exiting, (b, refl, at_child), goes)))
      ]

-- The call of `sys_exit` by the current process of a running system, which is not init, has its context
-- saved and no child that has exited, and has another process in use as its parent, with a saved context
-- and a priority in range, while a process is ready and the zombie queue's count is in range. It returns
-- and leaves a running system, with the children given to init. If the parent waits, it gets the pid and
-- the status and is ready, at the end of the queue of its priority, and the process is cleaned up; if not,
-- the process is a zombie, at the end of the zombie queue. The first of the highest ready queue then
-- runs, and nothing else has changed.
pub sys_exit-Exited :
    (m : Machine) {v : View} (k : Running m.clk.os v) (px : ℕ) (parent : Pcb) (i : ℕ) (x : PcbPtr)
    (xs : List PcbPtr)
    → k.pcb.context ≢ null
    → k.pcb.parent ≡ suc px
    → get_elem? m.clk.os.ptable px ≡ some parent
    → is_unused parent.state ≡ false
    → px ≢ k.ix
    → parent.priority < n_prios
    → parent.context ≢ null
    → m.clk.os.init_pcb ≢ suc k.ix
    → last_zombie (suc k.ix) 0 null m.clk.os.ptable ≡ null
    → length (v.items zombie_ix) + 1 < 2 ^ 32
    → i < n_prios
    → v.items i ≡ x ∷ xs
    → Returns
        (Exited m k px parent (load_word m.mem (k.pcb.context + (context_size + 4))))
        (sys_exit (suc k.ix) m)
unfolding sys_exit exit_to store reap_for_init settled exiting
sys_exit-Exited m {v} k px parent i x xs saved at there used apart low parent_saved other no_zombie
      few small e =
    let status = load_word m.mem (k.pcb.context + (context_size + 4)) in
    let own : Pcb = record (k.pcb) { status = status } in
    let s1 = with_pcb m.clk.os k.ix own in
    let inside : k.ix < n_procs =
      omega (arith, lt_of_get_elem? m.clk.os.ptable k.ix k.there, k.kernel.procs) in
    let size : length s1.ptable ≡ n_procs = length-set m.clk.os.ptable k.ix own ∙ k.kernel.procs in
    let none_found : last_zombie (suc k.ix) 0 null s1.ptable ≡ null =
      last_zombie-set (suc k.ix) 0 null m.clk.os.ptable k.ix k.pcb status k.there ∙ no_zombie in
    let distinct : (suc px == suc k.ix) ≡ false = ground (arith, apart) in
    rw (address-ne_null k.ix, in_os-load m k.ix k.pcb k.there)
      (subst (λ q. Returns (Exited m k px parent status) (exit_to q (suc k.ix) k.pcb m)) (sym at)
        (rw
          (
            address-ne_null px,
            in_os-load m px parent there,
            used,
            distinct,
            reg-ok m k.ix k.pcb k.there saved (context_size + 4),
            reparent-adopted k.ix null s1 inside size other,
            none_found,
          )
          (leave-Exited m k px parent there apart status low parent_saved few i x xs small e)))
