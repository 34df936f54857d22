-- ===== src/Clock/Interrupt.antt =====
-- `clk_isr` of kernel/clock.c on a running system.
use mathlib.Core.Path.{subst}
use os_team.Base.{
  ℕ, ◌≡◌, refl, sym, ap, inl, inr, arith, ltb, add32, Bool-cases, Cmd, Returns, returns, bind, mono,
  returned,
}
use os_team.Queues.Model.{View}
use os_team.Procs.State.{Os}
use os_team.Procs.Model.{sleep_ix}
use os_team.Clock.{Clk, wake_all, use_tick, clk_isr, spin, in_os}
use os_team.Clock.Entries.{items_fit}
use os_team.Clock.Tick.{use_tick-goes_on}
use os_team.Clock.Running.{Running, RunsOn, goes_on-Running, Running-Wakes, wake_all-Wakes}
use os_team.Clock.Turn.{preempts-Running}

use_tick-Running : {s : Os} {v : View} → Running s v → Returns (λ _ s'. RunsOn s') (use_tick s)
use_tick-Running {s} {v} k = elim (Bool-cases (ltb 1 k.pcb.quantum)) [
  | inl more ↦
      rw (use_tick-goes_on s k.ix k.pcb k.current k.there (ground arith) k.byte)
        (returns (v, goes_on-Running k (ground arith)))
  | inr last ↦ preempts-Running k (ground (arith, k.alive))
]

spin-os : (c : Clk) → (spin c).os ≡ c.os
unfolding spin
spin-os c = ground arith

in_os-Returns :
    {P : Os → Type 0} (c : Clk) (m : Cmd Os (Unit {0}))
    → Returns (λ _ t. P t) (m c.os)
    → Returns (λ _ c'. (t : Os) × (c' ≡ record c { os = t }) × P t) (in_os m c)
in_os-Returns c m h = let (a, t, e, p) = returned h in rw e (returns (t, refl, p))

wake_all-Running :
    (time : ℕ) {s : Os} {v : View} → Running s v → Returns (λ _ s'. RunsOn s') (wake_all time s)
wake_all-Running time {s} {v} k =
    mono
      (wake_all-Wakes time k.kernel (k.everyone sleep_ix (omega arith))
        (λ i low. omega (arith, items_fit v i low, k.fits)))
      (λ _ s' w. (w.view, Running-Wakes k w))

-- On a running system the clock interrupt returns, and leaves a running system whose time is a tick
-- later (modulo the word).
pub clk_isr-Running :
    (c : Clk) {v : View}
    → Running c.os v
    → Returns (λ _ c'. RunsOn c'.os × (c'.system_time ≡ add32 c.system_time 1)) (clk_isr c)
unfolding clk_isr
clk_isr-Running c {v} k =
    let c0 : Clk = record (spin c) { system_time = add32 c.system_time 1 } in
    let start : Running c0.os v = subst (λ t. Running t v) (sym (spin-os c)) k in
    bind
      (in_os-Returns c0 (wake_all (add32 c.system_time 1))
        (wake_all-Running (add32 c.system_time 1) start))
      (λ _ c1 (t, e, (v1, k1)).
        subst
          (λ c'.
            Returns (λ _ c2. RunsOn c2.os × (c2.system_time ≡ add32 c.system_time 1))
              (in_os use_tick c'))
          (sym e)
          (mono (in_os-Returns (record c0 { os = t }) use_tick (use_tick-Running k1))
            (λ _ c2 (t2, e2, run).
              (subst (λ (x : Clk). RunsOn x.os) (sym e2) run, ap (λ (x : Clk). x.system_time) e2))))
