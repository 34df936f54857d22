-- ===== src/Clock/Turn.antt =====
-- A running system when the quantum of its current process ends.
use mathlib.Core.Path.{subst}
use os_team.Base.{◌-◌, ◌≡◌, refl, sym, set, length-set, get_elem?-set_self, arith, Returns, mono}
use os_team.Queues.Model.{View}
use os_team.Procs.State.{Os, Pcb, with_pcb, store}
use os_team.Procs.Model.{Kernel-with_parts, load-ok}
use os_team.Clock.{spend, use_tick}
use os_team.Clock.Table.{All-set}
use os_team.Clock.Running.{Running, RunsOn}
use os_team.Clock.Switch.{Waiting, yield-Resumes}

module _ {s : Os} {v : View} (k : Running s v) (last : k.pcb.quantum ≡ 1) where
  spent : Pcb
  spent = record (k.pcb) { quantum = 0 }

  spent-Waiting : Waiting (with_pcb s k.ix spent) v
  unfolding spent
  spent-Waiting = record {
    kernel =
        Kernel-with_parts k.kernel v s.que (set s.ptable k.ix spent) k.kernel.que refl
          (length-set s.ptable k.ix spent);
    everyone =
        λ i low. All-set s.ptable k.ix k.pcb spent k.there refl (v.items i) (k.everyone i low);
    fits = omega (arith, k.fits);
  }

  pub preempts-Running : Returns (λ _ s'. RunsOn s') (use_tick s)
  unfolding use_tick spend store spent
  preempts-Running =
      subst (λ c. Returns (λ _ s'. RunsOn s') (spend c s)) (sym k.current)
        (rw (load-ok s k.ix k.pcb k.there, last)
          (mono
            (yield-Resumes spent-Waiting (v.room - 1) k.ix spent (omega (arith, k.spare))
              (get_elem?-set_self s.ptable k.ix spent k.there) k.low k.fits)
            (λ _ s' r. (_, r.runs))))
