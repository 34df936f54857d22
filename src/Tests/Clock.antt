-- ===== src/Tests/Clock.antt =====
-- The clock interrupt on the sample, at the time when the first sleeper is due.
use os_team.Base.{
  ℕ, ◌≡◌, refl, arith, [], ◌∷◌, ◌<◌, ◌+◌, ◌^◌, zero, suc, length, get_elem?, some, Returns,
}
use os_team.Base.Chain.{All}
use os_team.Procs.State.{Pcb, State, n_prios}
use os_team.Procs.Sched.Dispatch.{First}
use os_team.Clock.{Clk, wake_all, use_tick, clk_isr}
use os_team.Clock.Table.{IsSchedulable}
use os_team.Clock.Wake.{Wakes}
use os_team.Clock.Entries.{Everyone}
use os_team.Clock.Tick.{use_tick-Preempts, Preempts, expired_view}
use os_team.Clock.Running.{Running, RunsOn, wake_all-Wakes}
use os_team.Clock.Interrupt.{clk_isr-Running}
use os_team.Procs.Model.{sleep_ix}
use os_team.Procs.State.{wakeup_at, call, comp_wakeup_ptr}
use os_team.Queues.Ops.Enqueue.{enqueue}
use os_team.Queues.Ops.Sorted.{Ascending}
use os_team.Clock.Sleepers.{enqueue-Ascending, wake_all-late}
use os_team.Tests.Sample.{process, view0, os0, os0-Kernel}

known :
    (ix : ℕ) (p : Pcb)
    → get_elem? os0.ptable ix ≡ some p
    → p.priority < n_prios
    → IsSchedulable os0.ptable (suc ix)
known ix p e low = record { ix = ix; pcb = p; points = refl; there = e; low = low }

sleepers : All (IsSchedulable os0.ptable) (3 ∷ 4 ∷ [])
sleepers = (
  known 2 (process State.sleeping 0 0 10) refl (omega arith),
  (known 3 (process State.sleeping 2 0 50) refl (omega arith), tt),
)

everyone0 : Everyone (IsSchedulable os0.ptable) view0
everyone0 zero h = tt
everyone0 (suc zero) h = (known 1 (process State.ready 1 0 0) refl (omega arith), tt)
everyone0 (suc (suc zero)) h = tt
everyone0 (suc (suc (suc zero))) h = sleepers
everyone0 (suc (suc (suc (suc i)))) h = absurd (omega arith)

room0 : (i : ℕ) → i < n_prios → length (view0.items i) + 2 < 2 ^ 32
room0 zero h = omega arith
room0 (suc zero) h = omega arith
room0 (suc (suc zero)) h = omega arith
room0 (suc (suc (suc i))) h = absurd (omega arith)

wake_all-Wakes_example : Returns (λ _ s'. Wakes 10 os0 view0 (3 ∷ 4 ∷ []) s') (wake_all 10 os0)
wake_all-Wakes_example = wake_all-Wakes 10 os0-Kernel sleepers room0

-- The ready process runs next.
preempted : First (expired_view view0 1 0 (process State.running 0 1 0)) 0 1 []
preempted = record { low = omega arith; entries = refl; above = λ j h. absurd (omega arith) }

use_tick-Preempts_example :
    Returns
      (Preempts os0 view0 1 0 0 0 (process State.running 0 1 0) (process State.ready 0 0 0) [])
      (use_tick os0)
use_tick-Preempts_example =
    use_tick-Preempts 1 0 0 0 (process State.running 0 1 0) (process State.ready 0 0 0) []
      os0-Kernel refl refl refl (omega arith) refl (omega arith) preempted refl

running0 : Running os0 view0
running0 = record {
  kernel = os0-Kernel;
  everyone = everyone0;
  ix = 0;
  pcb = process State.running 0 1 0;
  current = refl;
  there = refl;
  low = omega arith;
  alive = omega arith;
  byte = omega arith;
  spare = omega arith;
  fits = omega arith;
}

abbrev clk0 : Clk
clk0 = record { os = os0; system_time = 9; pinwheel = 99; pindex = 0 }

clk_isr-Running_example : Returns (λ _ c'. RunsOn c'.os × (c'.system_time ≡ 10)) (clk_isr clk0)
clk_isr-Running_example = clk_isr-Running clk0 running0

sleepers-Ascending : Ascending (wakeup_at os0.ptable) (3 ∷ 4 ∷ [])
sleepers-Ascending = ((omega arith, tt), (tt, tt))

-- The ready process, whose wakeup time is 0, would go to the front.
enqueue-Ascending_example :
    Ascending (wakeup_at os0.ptable) (enqueue (call os0.ptable) comp_wakeup_ptr 2 (3 ∷ 4 ∷ []))
enqueue-Ascending_example = enqueue-Ascending os0.ptable 2 (3 ∷ 4 ∷ []) sleepers-Ascending

wake_all-late_example :
    Returns
      (λ _ s'.
        (w : Wakes 10 os0 view0 (3 ∷ 4 ∷ []) s') × All
          (λ y. 10 < wakeup_at os0.ptable y)
          (w.view.items sleep_ix))
      (wake_all 10 os0)
wake_all-late_example = wake_all-late 10 os0-Kernel sleepers sleepers-Ascending room0
