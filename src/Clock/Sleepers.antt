-- ===== src/Clock/Sleepers.antt =====
-- The order of the sleep queue by `comp_wakeup` of kernel/procs.c, and the wake-up loop of `clk_isr`.
use mathlib.Core.Path.{subst}
use os_team.Base.{
  ℕ, ◌+◌, ◌^◌, ◌≤◌, ◌<◌, ◌≡◌, sym, leb, List, [], ◌∷◌, arith, Bool-cases, inl, inr, length, Returns,
  mono,
}
use os_team.Base.Int.{nonneg}
use os_team.Base.Chain.{All, after}
use os_team.Queues.Model.{View}
use os_team.Queues.Ops.Enqueue.{enqueue}
use os_team.Queues.Ops.Sorted.{Ascending, place-Ascending}
use os_team.Procs.State.{Os, Pcb, PcbPtr, n_prios, wakeup_at, comp_wakeup, comp_wakeup_ptr, call}
use os_team.Procs.Model.{Kernel, sleep_ix}
use os_team.Clock.{wake_all}
use os_team.Clock.Table.{IsSchedulable}
use os_team.Clock.Wake.{is_due, Wakes}
use os_team.Clock.Running.{wake_all-Wakes}

comp_wakeup-key :
    (table : List Pcb) (a b : PcbPtr)
    → nonneg (comp_wakeup table a b) ≡ leb (wakeup_at table b) (wakeup_at table a)
unfolding comp_wakeup
comp_wakeup-key table a b = ground arith

-- An insertion into the sleep queue, which `comp_wakeup` orders, keeps it in ascending order of the
-- wakeup times.
pub enqueue-Ascending :
    (table : List Pcb) (x : PcbPtr) (l : List PcbPtr)
    → Ascending (wakeup_at table) l
    → Ascending (wakeup_at table) (enqueue (call table) comp_wakeup_ptr x l)
unfolding enqueue
enqueue-Ascending table x l h =
    place-Ascending (wakeup_at table) (comp_wakeup table) x l (comp_wakeup-key table) h

late_behind :
    (time : ℕ) (table : List Pcb) (a : ℕ) (l : List PcbPtr)
    → time < a
    → All (λ y. a ≤ wakeup_at table y) l
    → All (λ y. time < wakeup_at table y) l
late_behind time table a [] late h = tt
late_behind time table a (x ∷ xs) late h =
    (omega (arith, h.0), late_behind time table a xs late h.1)

pub after-late :
    (time : ℕ) (table : List Pcb) (l : List PcbPtr)
    → Ascending (wakeup_at table) l
    → All (λ y. time < wakeup_at table y) (after (is_due time table) l)
unfolding after
after-late time table [] h = tt
after-late time table (x ∷ xs) h =
    let rest = after-late time table xs h.1 in
    elim (Bool-cases (is_due time table x)) [
      | inl due ↦ rw due rest
      | inr late ↦
          let future : time < wakeup_at table x = ground arith in
          rw late (future, late_behind time table (wakeup_at table x) xs future h.0)
    ]

-- When the sleepers can be scheduled, stand in ascending order of their wakeup times, and the counters of
-- the ready queues have room for them, the wake-up loop returns as `Wakes` says, with everybody who is
-- still asleep due later.
pub wake_all-late :
    (time : ℕ) {s : Os} {v : View}
    → Kernel s v
    → All (IsSchedulable s.ptable) (v.items sleep_ix)
    → Ascending (wakeup_at s.ptable) (v.items sleep_ix)
    → ((i : ℕ) → i < n_prios → length (v.items i) + length (v.items sleep_ix) < 2 ^ 32)
    → Returns
        (λ _ s'.
          (w : Wakes time s v (v.items sleep_ix) s') × All
            (λ y. time < wakeup_at s.ptable y)
            (w.view.items sleep_ix))
        (wake_all time s)
wake_all-late time {s} {v} k known sorted fits = mono (wake_all-Wakes time k known fits) (λ _ s' w.
    (
      w,
      subst (λ (l : List PcbPtr). All (λ y. time < wakeup_at s.ptable y) l) (sym (w.items sleep_ix))
          (after-late time s.ptable (v.items sleep_ix) sorted),
    ))
