-- ===== src/Clock/Running.antt =====
-- The invariant of a running system, and `clk_isr`'s wake-up loop on such a system.
use mathlib.Core.Path.{subst}
use os_team.Base.{
  ℕ, suc, ◌+◌, ◌-◌, ◌^◌, ◌<◌, ◌≡◌, refl, sym, ap, ◌∙◌, inl, inr, false, some, List, ◌++◌, length,
  get_elem?, set, length-append, length-map, length-set, get_elem?-set_self, get_elem?_of_lt, arith,
  ◌==◌, Bool-cases, eq_of_==, ◌>>=◌, Returns,
}
use os_team.Base.Chain.{All, before, after}
use os_team.Queues.Model.{View}
use os_team.Queues.Model.Nodes.{append-All}
use os_team.Queues.State.{load as load_queue}
use os_team.Queues.Ops.Seek.{load-ok as load_queue-ok}
use os_team.Procs.State.{Os, Pcb, PcbPtr, n_prios, with_pcb, in_que}
use os_team.Procs.Model.{Kernel, Kernel-with_parts, sleep_ix}
use os_team.Clock.{wake, wake_all}
use os_team.Clock.Table.{
  IsSchedulable, All-set, mark_ready, mark_ready-All, mark_ready-Keeps, length-mark_ready,
}
use os_team.Clock.Wake.{is_due, of_priority, Wakes}
use os_team.Clock.Loop.{wake-Wakes}
use os_team.Clock.Entries.{
  population, Everyone, of_priority-All, length-of_priority, before-after-All, length-before-after,
}

-- Every process in the queues, and the current one, is in the table with a priority of the system;
-- the current one has a part of its quantum left; a qnode is free for it; the counters have room.
pub record Running (s : Os) (v : View) : Type 0 where
  pub kernel : Kernel s v
  pub everyone : Everyone (IsSchedulable s.ptable) v
  pub ix : ℕ
  pub pcb : Pcb
  pub current : s.current ≡ suc ix
  pub there : get_elem? s.ptable ix ≡ some pcb
  pub low : pcb.priority < n_prios
  pub alive : 0 < pcb.quantum
  pub byte : pcb.quantum < 256
  pub spare : 0 < v.room
  pub fits : population v + 1 < 2 ^ 32

-- When the sleepers can be scheduled, and the counters of the ready queues have room for them, the
-- wake-up loop returns: it has rounds enough. The sleepers at the front of the queue that are due are
-- ready, at the end of the queues of their priorities, and the others are asleep as before.
pub wake_all-Wakes :
    (time : ℕ) {s : Os} {v : View}
    → Kernel s v
    → All (IsSchedulable s.ptable) (v.items sleep_ix)
    → ((i : ℕ) → i < n_prios → length (v.items i) + length (v.items sleep_ix) < 2 ^ 32)
    → Returns (λ _ s'. Wakes time s v (v.items sleep_ix) s') (wake_all time s)
unfolding wake_all
wake_all-Wakes time {s} {v} k known fits =
    let (q, here) = get_elem?_of_lt s.que.queues sleep_ix (omega (arith, k.que.n_queues)) in
    let size : q.count ≡ length (v.items sleep_ix) =
      (k.que.queue sleep_ix q here).count
      ∙ sym (
          ap length (k.que.items sleep_ix q here)
          ∙ length-map s.que.item_of (k.que.nodes sleep_ix)) in
    subst
      (λ h.
        Returns (λ _ s'. Wakes time s v (v.items sleep_ix) s')
          ((in_que (load_queue h) >>= λ x. wake (x.count + 1) time) s))
      (sym k.sleeping)
      (rw (load_queue-ok s.que sleep_ix q here)
        (wake-Wakes (q.count + 1) time (v.items sleep_ix) k refl known (omega arith) fits))

module _ {time : ℕ} {s s' : Os} {v : View} (k : Running s v)
    (w : Wakes time s v (v.items sleep_ix) s') where
  woken : List PcbPtr
  woken = before (is_due time s.ptable) (v.items sleep_ix)

  asleep : List PcbPtr
  asleep = after (is_due time s.ptable) (v.items sleep_ix)

  known : All (IsSchedulable s.ptable) woken × All (IsSchedulable s.ptable) asleep
  unfolding woken asleep
  known =
      before-after-All (IsSchedulable s.ptable) (is_due time s.ptable) (v.items sleep_ix)
        (k.everyone sleep_ix (omega arith))

  ready_items : (i : ℕ) → i < n_prios → w.view.items i ≡ v.items i ++ of_priority s.ptable i woken
  unfolding woken
  ready_items i low = let awake : (i == sleep_ix) ≡ false = ground arith in w.items i ∙ rw awake

  sleep_items : w.view.items sleep_ix ≡ asleep
  unfolding asleep
  sleep_items = w.items sleep_ix

  population-Wakes : population w.view ≡ population v
  unfolding woken asleep
  population-Wakes = omega (
    arith,
    ap length (ready_items 0 (omega arith)),
    ap length (ready_items 1 (omega arith)),
    ap length (ready_items 2 (omega arith)),
    ap length sleep_items,
    length-append (v.items 0) (of_priority s.ptable 0 woken),
    length-append (v.items 1) (of_priority s.ptable 1 woken),
    length-append (v.items 2) (of_priority s.ptable 2 woken),
    length-of_priority s.ptable woken known.0,
    length-before-after (is_due time s.ptable) (v.items sleep_ix),
  )

  Everyone-Wakes : Everyone (IsSchedulable s.ptable) w.view
  Everyone-Wakes i low = elim (Bool-cases (i == sleep_ix)) [
    | inl eq ↦
        subst (λ n. All (IsSchedulable s.ptable) (w.view.items n)) (sym (eq_of_== i sleep_ix eq))
          (subst (λ (l : List PcbPtr). All (IsSchedulable s.ptable) l) (sym sleep_items) known.1)
    | inr ne ↦
        subst (λ (l : List PcbPtr). All (IsSchedulable s.ptable) l)
          (sym (ready_items i (ground arith)))
          (append-All (IsSchedulable s.ptable) (v.items i) (of_priority s.ptable i woken)
            (k.everyone i low) (of_priority-All (IsSchedulable s.ptable) s.ptable i woken known.0))
  ]

  pub Running-Wakes : Running s' w.view
  unfolding woken
  Running-Wakes =
      let kept = mark_ready-Keeps woken s.ptable k.ix k.pcb k.there in
      subst (λ t. Running t w.view) (sym w.state)
        (record {
          kernel =
              Kernel-with_parts k.kernel w.view w.que (mark_ready woken s.ptable) w.models w.order
                (length-mark_ready woken s.ptable);
          everyone = λ i low. mark_ready-All woken s.ptable (w.view.items i) (Everyone-Wakes i low);
          ix = k.ix;
          pcb = kept.pcb;
          current = k.current;
          there = kept.there;
          low = omega (arith, kept.priority, k.low);
          alive = omega (arith, kept.quantum, k.alive);
          byte = omega (arith, kept.quantum, k.byte);
          spare = omega (arith, ap (λ n. n) w.room, k.spare);
          fits = omega (arith, population-Wakes, k.fits);
        })

-- A run of the kernel that ends in a running system, with the views left open.
abbrev pub RunsOn : Os → Type 0
RunsOn s' = (v' : View) × Running s' v'

pub goes_on-Running :
    {s : Os} {v : View} (k : Running s v)
    → 1 < k.pcb.quantum
    → Running (with_pcb s k.ix (record (k.pcb) { quantum = k.pcb.quantum - 1 })) v
goes_on-Running {s} {v} k more =
    let p : Pcb = record (k.pcb) { quantum = k.pcb.quantum - 1 } in
    record {
      kernel =
          Kernel-with_parts k.kernel v s.que (set s.ptable k.ix p) k.kernel.que refl
            (length-set s.ptable k.ix p);
      everyone = λ i low. All-set s.ptable k.ix k.pcb p k.there refl (v.items i) (k.everyone i low);
      ix = k.ix;
      pcb = p;
      current = k.current;
      there = get_elem?-set_self s.ptable k.ix p k.there;
      low = k.low;
      alive = omega arith;
      byte = omega (arith, k.byte);
      spare = k.spare;
      fits = k.fits;
    }
