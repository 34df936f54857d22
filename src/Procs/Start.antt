-- ===== src/Procs/Start.antt =====
-- `pcb_init` of kernel/procs.c, after `que_init`.
use mathlib.Core.Path.{subst}
use os_team.Base.{
  ℕ, zero, suc, ◌≡◌, ◌≢◌, refl, sym, ap₂, List, [], ◌∷◌, length, replicate, Returns, returns,
}
use os_team.Base.Chain.{Ptr, null}
use os_team.Queues.State.{Queue, Que, n_queues, que_free_flag}
use os_team.Queues.Model.{View}
use os_team.Queues.Model.Fresh.{fresh_view, fresh-Models, IsClear}
use os_team.Queues.Table.{clear_queue, alloc, find_free}
use os_team.Queues.Table.Start.{Started}
use os_team.Procs.State.{Os, clear_pcb, n_procs, comp_wakeup_ptr, with_que}
use os_team.Procs.Model.{Kernel, sleep_ix}
use os_team.Procs.Table.{pcb_init}

-- A kernel with nothing in its queues and nobody in its table.
pub record Idle (room : ℕ) (s : Os) : Type 0 where
  pub view : View
  pub kernel : Kernel s view
  pub room_left : view.room ≡ room
  pub nothing : (i : ℕ) → view.items i ≡ []
  pub unused : s.ptable ≡ replicate n_procs clear_pcb

-- The queues after the seven allocations.
abbrev allocated : List Queue
allocated =
    clear_queue null
    ∷ clear_queue null
    ∷ clear_queue null
    ∷ clear_queue comp_wakeup_ptr
    ∷ clear_queue null
    ∷ clear_queue null
    ∷ clear_queue null
    ∷ clear_queue null
    ∷ []

abbrev flags : List ℕ
flags = 0 ∷ 0 ∷ 0 ∷ 0 ∷ 0 ∷ 0 ∷ 0 ∷ 1 ∷ []

is_clear : (order : Ptr) → IsClear (clear_queue order)
is_clear order = (refl, refl, refl)

module _ (q : Que) where
  abbrev with_queues : List Queue → List ℕ → Que
  with_queues queues used = record q { queues = queues; queue_free = used }

  started_fifo :
      (used : List ℕ) (i : ℕ)
      → i ≢ sleep_ix
      → (fresh_view (with_queues allocated used) 0).order i ≡ null
  started_fifo used zero ne = refl
  started_fifo used (suc zero) ne = refl
  started_fifo used (suc (suc zero)) ne = refl
  started_fifo used (suc (suc (suc zero))) ne = absurd (ne refl)
  started_fifo used (suc (suc (suc (suc zero)))) ne = refl
  started_fifo used (suc (suc (suc (suc (suc zero))))) ne = refl
  started_fifo used (suc (suc (suc (suc (suc (suc zero)))))) ne = refl
  started_fifo used (suc (suc (suc (suc (suc (suc (suc zero))))))) ne = refl
  started_fifo used (suc (suc (suc (suc (suc (suc (suc (suc i)))))))) ne = refl

start_at :
    (s : Os) (free : List Ptr)
    → Started s.que free
    → Returns
        (λ _ s'. Idle (length free) s')
        (pcb_init (
          with_que s (
            with_queues s.que
              (replicate n_queues (clear_queue null))
              (replicate n_queues que_free_flag))))
unfolding pcb_init alloc find_free
start_at s free h = returns (record {
  view = fresh_view (with_queues s.que allocated flags) (length free);
  kernel = record {
    que =
        fresh-Models (with_queues s.que allocated flags) free refl
          (
            is_clear null,
            (
              is_clear null,
              (
                is_clear null,
                (
                  is_clear comp_wakeup_ptr,
                  (is_clear null, (is_clear null, (is_clear null, (is_clear null, tt)))),
                ),
              ),
            ),
          )
          h.pool;
    ready = refl;
    sleeping = refl;
    zombie = refl;
    blocked = refl;
    sioread = refl;
    fifo = started_fifo s.que flags;
    timed = refl;
    procs = refl;
  };
  room_left = refl;
  nothing = λ i. refl;
  unused = refl;
})

-- After `que_init`, `pcb_init` returns: the handles are those of the kernel's queues, the sleep queue is
-- ordered by the wakeup times, nothing is queued, the table is unused, and every qnode is free.
pub pcb_init-Idle :
    (s : Os) (free : List Ptr)
    → Started s.que free
    → Returns (λ _ s'. Idle (length free) s') (pcb_init s)
pcb_init-Idle s free h =
    subst (λ q. Returns (λ _ s'. Idle (length free) s') (pcb_init (with_que s q)))
      (sym (ap₂ (λ queues used. with_queues s.que queues used) h.queues h.queue_free))
      (start_at s free h)
