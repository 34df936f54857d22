-- ===== src/Syscalls/Sleeping.antt =====
-- sys_sleep of kernel/syscalls.c, called by the current process of a running system.
use os_team.Base.{
  ℕ, suc, ◌+◌, ◌-◌, ◌<◌, ◌≡◌, ◌≢◌, inl, inr, List, [], ◌∷◌, ◌++◌, set, arith, ◌==◌, if◌then◌else◌,
  add32, Bool-cases, ◌>>◌, Returns, mono,
}
use os_team.Base.Chain.{null}
use os_team.Text.Words.{load_word}
use os_team.Queues.Model.{View, with_items}
use os_team.Queues.Ops.Dequeue.{address-ne_null}
use os_team.Procs.State.{Os, PcbPtr, n_prios}
use os_team.Procs.Sched.{schedule, dispatch}
use os_team.Clock.Table.{make_ready}
use os_team.Clock.Running.{Running}
use os_team.Clock.Switch.{Resumes, yield-Resumes}
use os_team.Machine.{Machine, with_os, context_size}
use os_team.Machine.Access.{reg-ok, in_os-Returns}
use os_team.Syscalls.Simple.{sys_sleep, sleep_until}
use os_team.Syscalls.Sleep.{laid, asleep_view, sleep_until-Resumes}

-- The first argument of the current process.
abbrev pub first_arg : (m : Machine) {v : View} → Running m.clk.os v → ℕ
first_arg m k = load_word m.mem (k.pcb.context + (context_size + 4))

-- The system after a sleep of `n` milliseconds. For 0 the process is ready, at the end of the queue of its
-- priority; else it is asleep, at the place of its wakeup time among the sleepers. Then the first of the
-- highest ready queue goes on. Nothing else is new.
abbrev pub Slept :
    (m : Machine) {v : View} → Running m.clk.os v → (n : ℕ) → Unit {0} → Machine → Type 0
Slept m {v} k n _ m' =
    (s : Os) × (m' ≡ with_os m s)
    × (if n == 0
        then Resumes (record (m.clk.os) { ptable = set m.clk.os.ptable k.ix (make_ready k.pcb) })
            (with_items v (v.room - 1) k.pcb.priority (v.items k.pcb.priority ++ suc k.ix ∷ [])) s
        else Resumes (laid k (add32 m.clk.system_time n))
            (asleep_view k (add32 m.clk.system_time n)) s)

yields :
    {s : Os} {v : View} (k : Running s v)
    → Returns
        (λ _ s'.
          Resumes
            (record s { ptable = set s.ptable k.ix (make_ready k.pcb) })
            (with_items v (v.room - 1) k.pcb.priority (v.items k.pcb.priority ++ suc k.ix ∷ []))
            s')
        ((schedule (suc k.ix) >> dispatch) s)
yields {s} {v} k =
    yield-Resumes
      (record { kernel = k.kernel; everyone = k.everyone; fits = omega (arith, k.fits) })
      (v.room - 1) k.ix k.pcb (omega (arith, k.spare)) k.there k.low k.fits

-- The call of `sys_sleep` by the current process of a running system, with its context saved and while
-- another process is ready, returns and leaves a running system. For 0 milliseconds the process is ready
-- again, at the end of the queue of its priority; else it is asleep, at the place of its wakeup time in
-- the sleep queue. The first of the highest ready queue then runs, and nothing else has changed.
pub sys_sleep-Slept :
    (m : Machine) {v : View} (k : Running m.clk.os v) (i : ℕ) (x : PcbPtr) (xs : List PcbPtr)
    → k.pcb.context ≢ null
    → i < n_prios
    → v.items i ≡ x ∷ xs
    → Returns (Slept m k (first_arg m k)) (sys_sleep (suc k.ix) m)
unfolding sys_sleep
sys_sleep-Slept m {v} k i x xs saved low e = elim (Bool-cases (first_arg m k == 0)) [
  | inl none ↦
      rw (address-ne_null k.ix, reg-ok m k.ix k.pcb k.there saved (context_size + 4), none)
        (mono (in_os-Returns m (schedule (suc k.ix) >> dispatch) (yields k)) (λ _ m' r. rw none r))
  | inr some_time ↦
      rw (address-ne_null k.ix, reg-ok m k.ix k.pcb k.there saved (context_size + 4), some_time)
        (mono
          (in_os-Returns m (sleep_until (suc k.ix) (add32 m.clk.system_time (first_arg m k)))
            (sleep_until-Resumes k (add32 m.clk.system_time (first_arg m k)) i x xs low e))
          (λ _ m' r. rw some_time r))
]
