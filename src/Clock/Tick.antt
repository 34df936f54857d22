-- ===== src/Clock/Tick.antt =====
-- The last part of `clk_isr`: what a tick does to the current process.
use mathlib.Core.Path.{subst}
use os_team.Base.{
  ℕ, suc, ◌+◌, ◌-◌, ◌%◌, ◌^◌, ◌<◌, ◌≡◌, refl, sym, false, some, List, [], ◌∷◌, ◌++◌, length,
  get_elem?, set, length-set, get_elem?-set_self, arith, ltb, ok, Returns, bind,
}
use os_team.Queues.Model.{View, with_items}
use os_team.Procs.State.{Os, Pcb, PcbPtr, State, n_prios, q_std, with_pcb, store}
use os_team.Procs.Model.{Kernel, Becomes, Kernel-with_parts, load-ok}
use os_team.Procs.Sched.{dispatch}
use os_team.Procs.Sched.Ready.{schedule-Becomes}
use os_team.Procs.Sched.Dispatch.{First, dispatch-Becomes}
use os_team.Clock.{spend, use_tick}

-- With more than a tick of its quantum, a byte, left, the current process goes on with a tick less, and nothing else changes.
pub use_tick-goes_on :
    (s : Os) (ix : ℕ) (p : Pcb)
    → s.current ≡ suc ix
    → get_elem? s.ptable ix ≡ some p
    → 1 < p.quantum
    → p.quantum < 256
    → use_tick s ≡ ok tt (with_pcb s ix (record p { quantum = p.quantum - 1 }))
unfolding use_tick spend store
use_tick-goes_on s ix p cur here more byte =
    let left : (p.quantum + 255) % 256 ≡ p.quantum - 1 = omega arith in
    let alive : ltb (p.quantum - 1) 1 ≡ false = ground arith in
    subst (λ c. spend c s ≡ ok tt (with_pcb s ix (record p { quantum = p.quantum - 1 }))) (sym cur)
      (rw (load-ok s ix p here, left, alive) refl)

-- The process as the end of its quantum leaves it in the ready queue.
abbrev pub expire : Pcb → Pcb
expire p = record p { quantum = 0; state = State.ready }

-- The table and the view when the current process has gone to the end of its ready queue.
abbrev pub expired : List Pcb → ℕ → Pcb → List Pcb
expired table ix p = set (set table ix (record p { quantum = 0 })) ix (expire p)

abbrev pub expired_view : View → ℕ → ℕ → Pcb → View
expired_view v r ix p = with_items v r p.priority (v.items p.priority ++ suc ix ∷ [])

-- The outcome of a tick that ends the quantum, where the processor goes to the first process `jx` of
-- ready queue `i`.
abbrev pub Preempts :
    Os → View → (r ix i jx : ℕ) → (p next : Pcb) → List PcbPtr → Unit {0} → Os → Type 0
Preempts s v r ix i jx p next rest d s' =
    (s'.current ≡ suc jx)
    × Becomes (record s { current = suc jx }) (with_items (expired_view v r ix p) (suc r) i rest)
        (set (expired s.ptable ix p) jx (record next { state = State.running; quantum = q_std })) d
        s'

-- With its last tick used, a current process of a priority of the system goes to the end of its ready queue, and the processor
-- goes to the first process of the highest ready queue that then has one: it is running, with a full
-- quantum.
pub use_tick-Preempts :
    {s : Os} {v : View} (r ix i jx : ℕ) (p next : Pcb) (rest : List PcbPtr)
    → Kernel s v
    → v.room ≡ suc r
    → s.current ≡ suc ix
    → get_elem? s.ptable ix ≡ some p
    → p.priority < n_prios
    → p.quantum ≡ 1
    → length (v.items p.priority) + 1 < 2 ^ 32
    → First (expired_view v r ix p) i (suc jx) rest
    → get_elem? (expired s.ptable ix p) jx ≡ some next
    → Returns (Preempts s v r ix i jx p next rest) (use_tick s)
unfolding use_tick spend store
use_tick-Preempts {s} {v} r ix i jx p next rest k room cur here low last fits f there =
    let spent : Os = with_pcb s ix (record p { quantum = 0 }) in
    let k1 : Kernel spent v =
      Kernel-with_parts k v s.que (set s.ptable ix (record p { quantum = 0 })) k.que refl
        (length-set s.ptable ix (record p { quantum = 0 })) in
    subst (λ c. Returns (Preempts s v r ix i jx p next rest) (spend c s)) (sym cur)
      (rw (load-ok s ix p here, last)
        (bind
          (schedule-Becomes r ix (record p { quantum = 0 }) k1 room
            (get_elem?-set_self s.ptable ix (record p { quantum = 0 }) here) low fits)
          (λ _ s1 (q, e, models).
            let k2 =
              Kernel-with_parts k1 (expired_view v r ix p) q (expired s.ptable ix p) models refl
                (length-set _ ix (expire p)) in
            subst (λ t. Returns (Preempts s v r ix i jx p next rest) (dispatch t)) (sym e)
              (dispatch-Becomes i jx next rest k2 f there))))
