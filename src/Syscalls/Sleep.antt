-- ===== src/Syscalls/Sleep.antt =====
-- sys_sleep of kernel/syscalls.c on a running system.
use mathlib.Core.Path.{subst}
use os_team.Base.{
  ℕ, suc, ◌-◌, ◌^◌, ◌<◌, ◌≡◌, refl, sym, ap, List, [], ◌∷◌, length, set, length-set,
  get_elem?-set_self, arith, ◌>>=◌, Returns, mono, bind,
}
use os_team.Base.Int.{ℤ}
use os_team.Base.Chain.{All}
use os_team.Queues.State.{Que}
use os_team.Queues.Model.{View, Models, with_items}
use os_team.Queues.Ops
use os_team.Queues.Ops.Enqueue.{enqueue, place, insert-enqueue}
use os_team.Procs.State.{
  Os, Pcb, PcbPtr, State, n_prios, with_pcb, with_que, store, call, comp_wakeup_ptr, que_insert,
}
use os_team.Procs.Model.{Kernel, Kernel-with_parts, in_que-Returns, load-ok, sleep_ix}
use os_team.Clock.Table.{IsSchedulable, All-set}
use os_team.Clock.Entries.{population, population-with_items, Everyone, Everyone-with_items}
use os_team.Clock.Running.{Running}
use os_team.Clock.Switch.{Waiting, Resumes, Resumes-que, dispatch-Resumes}
use os_team.Syscalls.Simple.{sleep_until, go_on}

-- The entries after an ordered insertion are those before and the new one.
place-All :
    (P : PcbPtr → Type 0) (cmp : PcbPtr → PcbPtr → ℤ) (x : PcbPtr) (l : List PcbPtr)
    → P x
    → All P l
    → All P (place cmp x l)
unfolding place
place-All P cmp x [] p h = (p, tt)
place-All P cmp x (y ∷ ys) p h = ground (arith, place-All P cmp x ys p h.1)

length-place :
    (cmp : PcbPtr → PcbPtr → ℤ) (x : PcbPtr) (l : List PcbPtr)
    → length (place cmp x l) ≡ suc (length l)
unfolding place
length-place cmp x [] = refl
length-place cmp x (y ∷ ys) = ground (arith, length-place cmp x ys)

module _ {s : Os} {v : View} (k : Running s v) (wakeup : ℕ) where
  abbrev pub asleep : Pcb
  asleep = record (k.pcb) { state = State.sleeping; wakeup = wakeup }

  abbrev pub laid : Os
  laid = with_pcb s k.ix asleep

  abbrev pub sleepers : List PcbPtr
  sleepers = enqueue (call laid.ptable) comp_wakeup_ptr (suc k.ix) (v.items sleep_ix)

  abbrev pub asleep_view : View
  asleep_view = with_items v (v.room - 1) sleep_ix sleepers

  laid-Kernel : Kernel laid v
  laid-Kernel =
      Kernel-with_parts k.kernel v s.que (set s.ptable k.ix asleep) k.kernel.que refl
        (length-set s.ptable k.ix asleep)

  laid-Everyone : Everyone (IsSchedulable laid.ptable) v
  laid-Everyone i low =
      All-set s.ptable k.ix k.pcb asleep k.there refl (v.items i) (k.everyone i low)

  asleep-Everyone : Everyone (IsSchedulable laid.ptable) asleep_view
  unfolding enqueue
  asleep-Everyone =
      Everyone-with_items (IsSchedulable laid.ptable) v (v.room - 1) sleep_ix sleepers laid-Everyone
        (place-All (IsSchedulable laid.ptable) (call laid.ptable comp_wakeup_ptr) (suc k.ix)
          (v.items sleep_ix)
          (record {
            ix = k.ix;
            pcb = asleep;
            points = refl;
            there = get_elem?-set_self s.ptable k.ix asleep k.there;
            low = k.low;
          })
          (laid-Everyone sleep_ix (omega arith)))

  asleep-fits : population asleep_view < 2 ^ 32
  unfolding enqueue
  asleep-fits = omega (
    arith,
    k.fits,
    population-with_items v (v.room - 1) sleep_ix sleepers (omega arith),
    length-place (call laid.ptable comp_wakeup_ptr) (suc k.ix) (v.items sleep_ix),
  )

  asleep-Waiting : (q : Que) → Models q asleep_view → Waiting (with_que laid q) asleep_view
  asleep-Waiting q models = record {
    kernel = Kernel-with_parts laid-Kernel asleep_view q laid.ptable models refl refl;
    everyone = asleep-Everyone;
    fits = asleep-fits;
  }

  -- The process is laid to sleep, and another one goes on.
  pub sleep_until-Resumes :
      (i : ℕ) (x : PcbPtr) (xs : List PcbPtr)
      → i < n_prios
      → v.items i ≡ x ∷ xs
      → Returns (λ _ s'. Resumes laid asleep_view s') (sleep_until (suc k.ix) wakeup s)
  unfolding sleep_until store
  sleep_until-Resumes i x xs low e =
      let others : asleep_view.items i ≡ x ∷ xs = ground arith in
      let order : enqueue (call laid.ptable) (v.order sleep_ix) (suc k.ix) (v.items sleep_ix)
          ≡ sleepers =
        ap (λ o. enqueue (call laid.ptable) o (suc k.ix) (v.items sleep_ix)) k.kernel.timed in
      rw (load-ok s k.ix k.pcb k.there) (
        subst
          (λ h.
            Returns (λ _ s'. Resumes laid asleep_view s')
              ((que_insert h (suc k.ix) >>= go_on) laid))
          (sym k.kernel.sleeping)
          (bind
            (in_que-Returns laid (Ops.insert (call laid.ptable) (suc sleep_ix) (suc k.ix)) (
              insert-enqueue (call laid.ptable) (v.room - 1) sleep_ix (suc k.ix) k.kernel.que
                (omega (arith, k.spare)) (omega arith) (omega (arith, k.fits))))
            (λ st s1 (q, e1, done).
              let models : Models q asleep_view =
                subst (λ (l : List PcbPtr). Models q (with_items v (v.room - 1) sleep_ix l)) order
                  (done.1) in
              subst (λ t. Returns (λ _ s'. Resumes laid asleep_view s') (go_on st t)) (sym e1)
                (rw (done.0) (
                  mono (dispatch-Resumes i x xs (asleep-Waiting q models) low others)
                    (λ _ s2 r. Resumes-que q r))))))
