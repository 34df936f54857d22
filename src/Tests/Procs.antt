-- ===== src/Tests/Procs.antt =====
-- The scheduler of kernel/procs.c on the sample.
use os_team.Base.{ℕ, ◌≡◌, refl, arith, [], ◌∷◌, ◌<◌, zero, suc, set, Returns, stop, panic, ◌≢◌}
use os_team.Base.Chain.{null}
use os_team.Queues.Table.{clear_queue}
use os_team.Queues.Model.Fresh.{IsClear, fresh_view, fresh-Models}
use os_team.Queues.Model.{with_items}
use os_team.Queues.State.{Que}
use os_team.Procs.State.{State, q_std, comp_wakeup_ptr}
use os_team.Procs.Model.{Kernel, Becomes, sleep_ix}
use os_team.Procs.Sched.{schedule, dispatch}
use os_team.Procs.Sched.Ready.{schedule-Becomes}
use os_team.Procs.Sched.Dispatch.{First, dispatch-Becomes, dispatch_idle}
use os_team.Tests.Sample.{process, que0, view0, os0, os0-Kernel}

schedule-Becomes_example :
    Returns
      (Becomes os0 (with_items view0 1 0 (1 ∷ [])) (set os0.ptable 0 (process State.ready 0 1 0)))
      (schedule 1 os0)
schedule-Becomes_example =
    schedule-Becomes 1 0 (process State.running 0 1 0) os0-Kernel refl refl (omega arith)
      (omega arith)

standard-First : First view0 1 2 []
standard-First = record { low = omega arith; entries = refl; above = λ j h. above0 j h }
  where
    above0 : (j : ℕ) → j < 1 → view0.items j ≡ []
    above0 zero h = refl
    above0 (suc j) h = absurd (omega arith)

dispatch-Becomes_example :
    Returns
      (λ d s'.
        (s'.current ≡ 2)
        × Becomes
            (record os0 { current = 2 })
            (with_items view0 3 1 [])
            (set os0.ptable 1 (process State.running 1 q_std 0))
            d
            s')
      (dispatch os0)
dispatch-Becomes_example =
    dispatch-Becomes 1 1 (process State.ready 1 0 0) [] os0-Kernel standard-First refl

-- The same kernel with nothing queued.
abbrev empty_que : Que
empty_que = record que0 {
  queues =
      clear_queue null
      ∷ clear_queue null
      ∷ clear_queue null
      ∷ clear_queue comp_wakeup_ptr
      ∷ clear_queue null
      ∷ clear_queue null
      ∷ clear_queue null
      ∷ clear_queue null
      ∷ [];
}

clear : (order : ℕ) → IsClear (clear_queue order)
clear order = (refl, refl, refl)

-- The order of the sleep queue is that of the wakeup times, and the others have none.
idle_fifo : (i : ℕ) → i ≢ sleep_ix → (fresh_view empty_que 2).order i ≡ null
idle_fifo zero ne = refl
idle_fifo (suc zero) ne = refl
idle_fifo (suc (suc zero)) ne = refl
idle_fifo (suc (suc (suc zero))) ne = absurd (ne refl)
idle_fifo (suc (suc (suc (suc zero)))) ne = refl
idle_fifo (suc (suc (suc (suc (suc zero))))) ne = refl
idle_fifo (suc (suc (suc (suc (suc (suc zero)))))) ne = refl
idle_fifo (suc (suc (suc (suc (suc (suc (suc zero))))))) ne = refl
idle_fifo (suc (suc (suc (suc (suc (suc (suc (suc i)))))))) ne = refl

no_address : (a : ℕ) → suc a ≢ null
no_address a e = cc

idle-Kernel : Kernel (record os0 { que = empty_que }) (fresh_view empty_que 2)
idle-Kernel = record {
  que =
      fresh-Models empty_que (100 ∷ 101 ∷ []) refl
        (
          clear null,
          (
            clear null,
            (
              clear null,
              (clear comp_wakeup_ptr, (clear null, (clear null, (clear null, (clear null, tt))))),
            ),
          ),
        )
        (refl, no_address 99, refl, (refl, no_address 100, refl, refl));
  ready = refl;
  sleeping = refl;
  zombie = refl;
  blocked = refl;
  sioread = refl;
  fifo = idle_fifo;
  timed = refl;
  procs = refl;
}

dispatch_idle_example : dispatch (record os0 { que = empty_que }) ≡ stop panic
dispatch_idle_example = dispatch_idle idle-Kernel (λ i h. refl)
