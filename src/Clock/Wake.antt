-- ===== src/Clock/Wake.antt =====
-- The loop of the clock interrupt that wakes the sleeping processes whose time has come.
use mathlib.Core.Path.{subst, subst₂}
use os_team.Base.{
  ℕ, suc, ◌+◌, ◌^◌, ◌<◌, ◌≡◌, refl, sym, ap, Bool, not, Option, some, List, [], ◌∷◌, ◌++◌, length,
  get_elem?, set, arith, ltb, ◌==◌, if◌then◌else◌, ◌>>◌, assert, Returns, bind,
}
use os_team.Base.Chain.{Ptr, before, after}
use os_team.Queues.State.{Que, Status, success}
use os_team.Queues.Model.{View, Models, with_items}
use os_team.Queues.Ops
use os_team.Queues.Ops.Dequeue.{Dequeues, remove-Dequeues}
use os_team.Procs.State.{Os, Pcb, PcbPtr, n_prios, wakeup_at, with_que, local}
use os_team.Procs.Model.{Kernel, Becomes, with_parts, Kernel-with_parts, in_que-Returns, sleep_ix}
use os_team.Procs.Sched.{schedule, stored_or}
use os_team.Procs.Sched.Ready.{schedule-Becomes}
use os_team.Clock.{awaken, is_success}
use os_team.Clock.Table.{priority_at, make_ready, mark_ready}

-- The process's wakeup time is not in the future.
abbrev pub is_due : ℕ → List Pcb → PcbPtr → Bool
is_due time table ptr = not (ltb time (wakeup_at table ptr))

-- The processes of a priority, in order.
unfoldable pub of_priority : List Pcb → ℕ → List PcbPtr → List PcbPtr
of_priority table k [] = []
of_priority table k (p ∷ ps) =
    let rest = of_priority table k ps in if priority_at table p == k then p ∷ rest else rest

-- The outcome of the loop, where the sleep queue had the entries `l`: those at its front that are due
-- are marked as ready, and stand at the end of the ready queues of their priorities.
pub record Wakes (time : ℕ) (s : Os) (v : View) (l : List PcbPtr) (s' : Os) : Type 0 where
  pub view : View
  pub que : Que
  pub models : Models que view
  pub state : s' ≡ with_parts s que (mark_ready (before (is_due time s.ptable) l) s.ptable)
  pub room : view.room ≡ v.room
  pub order : view.order ≡ v.order
  pub items :
      (i : ℕ)
      → view.items i ≡ (
          if i == sleep_ix
          then after (is_due time s.ptable) l
          else v.items i ++ of_priority s.ptable i (before (is_due time s.ptable) l))

-- The view after the first sleeper is woken.
abbrev pub awake_view : View → ℕ → PcbPtr → List PcbPtr → View
awake_view v k p rest =
    let asleep = with_items v (suc v.room) sleep_ix rest in
    with_items asleep v.room k (asleep.items k ++ p ∷ [])

pub awaken-Becomes :
    {s : Os} {v : View} (ix : ℕ) (p : Pcb) (rest : List PcbPtr)
    → Kernel s v
    → v.items sleep_ix ≡ suc ix ∷ rest
    → get_elem? s.ptable ix ≡ some p
    → p.priority < n_prios
    → length (v.items p.priority) + 1 < 2 ^ 32
    → Returns
        (Becomes s (awake_view v p.priority (suc ix) rest) (set s.ptable ix (make_ready p)))
        (awaken (suc sleep_ix) (suc ix) s)
unfolding awaken
awaken-Becomes {s} {v} ix p rest k first here low fits =
    bind
      (in_que-Returns s (Ops.remove (suc sleep_ix) local) (
        subst (λ l. Returns (Dequeues s.que v sleep_ix l) (Ops.remove (suc sleep_ix) local s.que))
          first (remove-Dequeues k.que sleep_ix local (omega arith) (omega arith))))
      (λ got s1 (q, e, done).
        let st : got.0 ≡ success = ap (λ (g : Status × Option Ptr). g.0) done.0 in
        let out : stored_or got.1 (suc ix) ≡ suc ix =
          ap (λ (g : Status × Option Ptr). stored_or g.1 (suc ix)) done.0 in
        let asleep = with_items v (suc v.room) sleep_ix rest in
        let k1 : Kernel (with_que s q) asleep =
          Kernel-with_parts k asleep q s.ptable done.1 refl refl in
        let others : asleep.items p.priority ≡ v.items p.priority = ground arith in
        subst₂
          (λ x t.
            Returns
              (Becomes s (awake_view v p.priority (suc ix) rest) (set s.ptable ix (make_ready p)))
              ((assert (is_success x) >> schedule t) s1))
          (sym st) (sym out)
          (subst
            (λ t.
              Returns
                (Becomes s (awake_view v p.priority (suc ix) rest) (set s.ptable ix (make_ready p)))
                (schedule (suc ix) t))
            (sym e)
            (schedule-Becomes v.room ix p k1 refl here low
              (subst (λ (l : List PcbPtr). length l + 1 < 2 ^ 32) (sym others) fits))))
