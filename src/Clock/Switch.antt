-- ===== src/Clock/Switch.antt =====
-- A running system after the processor has gone to another process: schedule and dispatch of
-- kernel/procs.c together.
use mathlib.Core.Path.{subst}
use os_team.Base.{
  ℕ, suc, ◌+◌, ◌^◌, ◌<◌, ◌≡◌, refl, sym, ap, ◌∙◌, some, List, [], ◌∷◌, ◌++◌, length, get_elem?, set,
  length-append, length-set, get_elem?-set_self, arith, ◌>>◌, Returns, mono, bind,
}
use os_team.Base.Chain.{All}
use os_team.Queues.State.{Que}
use os_team.Queues.Model.{View, Models, with_items}
use os_team.Queues.Model.Nodes.{append-All}
use os_team.Procs.State.{Os, Pcb, PcbPtr, State, n_prios, q_std}
use os_team.Procs.Model.{Kernel, with_parts, Kernel-with_parts}
use os_team.Procs.Sched.{schedule, dispatch}
use os_team.Procs.Sched.Ready.{schedule-Becomes}
use os_team.Procs.Sched.Dispatch.{First, dispatch-Becomes}
use os_team.Clock.Table.{IsSchedulable, All-set, make_ready}
use os_team.Clock.Entries.{
  population, population-with_items, items_fit, Everyone, Everyone-with_items, some_First,
}
use os_team.Clock.Running.{Running}

pub Kernel-current :
    {s : Os} {v : View} (p : PcbPtr) → Kernel s v → Kernel (record s { current = p }) v
Kernel-current p k = record {
  que = k.que;
  ready = k.ready;
  sleeping = k.sleeping;
  zombie = k.zombie;
  blocked = k.blocked;
  sioread = k.sioread;
  fifo = k.fifo;
  timed = k.timed;
  procs = k.procs;
}

-- The queues of a system in which the current process is to be replaced.
pub record Waiting (s : Os) (v : View) : Type 0 where
  pub kernel : Kernel s v
  pub everyone : Everyone (IsSchedulable s.ptable) v
  pub fits : population v < 2 ^ 32

-- `s'` is `s` after `dispatch`: the first process of the highest ready queue that has one is out of its
-- queue, and is the current process, running with a full quantum. Nothing else is new, and the system
-- is a running system.
pub record Resumes (s : Os) (v : View) (s' : Os) : Type 0 where
  pub level : ℕ
  pub ix : ℕ
  pub next : Pcb
  pub rest : List PcbPtr
  pub first : First v level (suc ix) rest
  pub there : get_elem? s.ptable ix ≡ some next
  pub que : Que
  pub state :
      s'
      ≡ with_parts
          (record s { current = suc ix })
          que
          (set s.ptable ix (record next { state = State.running; quantum = q_std }))
  pub runs : Running s' (with_items v (suc v.room) level rest)

module _ {s : Os} {v : View} (w : Waiting s v) (i jx : ℕ) (next : Pcb) (rest : List PcbPtr)
    (f : First v i (suc jx) rest) (there : get_elem? s.ptable jx ≡ some next)
    (low : next.priority < n_prios) where
  running : Pcb
  running = record next { state = State.running; quantum = q_std }

  after : View
  after = with_items v (suc v.room) i rest

  behind : All (IsSchedulable s.ptable) rest
  behind =
      (subst (λ (l : List PcbPtr). All (IsSchedulable s.ptable) l) f.entries
        (w.everyone i (omega (arith, f.low)))).1

  after-Everyone : Everyone (IsSchedulable s.ptable) after
  unfolding after
  after-Everyone =
      Everyone-with_items (IsSchedulable s.ptable) v (suc v.room) i rest w.everyone behind

  after-fits : population after + 1 < 2 ^ 32
  unfolding after
  after-fits = omega (
    arith,
    f.low,
    ap length f.entries,
    population-with_items v (suc v.room) i rest (omega (arith, f.low)),
    w.fits,
  )

  switched :
      (q : Que)
      → Models q after
      → Running (with_parts (record s { current = suc jx }) q (set s.ptable jx running)) after
  unfolding running after
  switched q models = record {
    kernel =
        Kernel-with_parts (Kernel-current (suc jx) w.kernel) after q (set s.ptable jx running)
          models refl (length-set s.ptable jx running);
    everyone = λ n small.
        All-set s.ptable jx next running there refl (after.items n) (after-Everyone n small);
    ix = jx;
    pcb = running;
    current = refl;
    there = get_elem?-set_self s.ptable jx running there;
    low = low;
    alive = omega arith;
    byte = omega arith;
    spare = omega arith;
    fits = after-fits;
  }

  dispatch_first-Resumes : Returns (λ _ s'. Resumes s v s') (dispatch s)
  unfolding running after
  dispatch_first-Resumes =
      mono (dispatch-Becomes i jx next rest w.kernel f there) (λ _ s' (cur, (q, e, models)).
        record {
          level = i;
          ix = jx;
          next = next;
          rest = rest;
          first = f;
          there = there;
          que = q;
          state = e;
          runs = subst (λ t. Running t after) (sym e) (switched q models);
        })

-- With the queues in order, their processes in the table, and a process in some ready queue, `dispatch`
-- returns, and the system runs on with the first of the highest of these queues.
pub dispatch-Resumes :
    {s : Os} {v : View} (k : ℕ) (x : PcbPtr) (xs : List PcbPtr)
    → Waiting s v
    → k < n_prios
    → v.items k ≡ x ∷ xs
    → Returns (λ _ s'. Resumes s v s') (dispatch s)
dispatch-Resumes {s} {v} k x xs w low e =
    let (i, p, rest, f) = some_First v k x xs low e in
    let known : All (IsSchedulable s.ptable) (p ∷ rest) =
      subst (λ (l : List PcbPtr). All (IsSchedulable s.ptable) l) f.entries
        (w.everyone i (omega (arith, f.low))) in
    let next = known.0 in
    dispatch_first-Resumes w i next.ix next.pcb rest
      (record {
        low = f.low;
        entries = f.entries ∙ ap (λ y. y ∷ rest) next.points;
        above = f.above;
      })
      next.there next.low

-- What `dispatch` found in the queues is in the view.
pub Resumes-que :
    {s : Os} {v : View} {s' : Os} (q : Que) → Resumes (record s { que = q }) v s' → Resumes s v s'
Resumes-que q r = record {
  level = r.level;
  ix = r.ix;
  next = r.next;
  rest = r.rest;
  first = r.first;
  there = r.there;
  que = r.que;
  state = r.state;
  runs = r.runs;
}

pub snoc_cons :
    (l : List PcbPtr) (y : PcbPtr) → (x : PcbPtr) × (xs : List PcbPtr) × (l ++ y ∷ [] ≡ x ∷ xs)
snoc_cons [] y = (y, [], refl)
snoc_cons (x ∷ xs) y = (x, xs ++ y ∷ [], refl)

module _ {s : Os} {v : View} (w : Waiting s v) (r ix : ℕ) (p : Pcb) (room : v.room ≡ suc r)
    (there : get_elem? s.ptable ix ≡ some p) (low : p.priority < n_prios)
    (fits : population v + 1 < 2 ^ 32) where
  abbrev pub queued : View
  queued = with_items v r p.priority (v.items p.priority ++ suc ix ∷ [])

  queued-Everyone : Everyone (IsSchedulable s.ptable) queued
  queued-Everyone =
      Everyone-with_items (IsSchedulable s.ptable) v r p.priority
        (v.items p.priority ++ suc ix ∷ []) w.everyone
        (append-All (IsSchedulable s.ptable) (v.items p.priority) (suc ix ∷ [])
          (w.everyone p.priority (omega (arith, low)))
          (record { ix = ix; pcb = p; points = refl; there = there; low = low }, tt))

  queued-fits : population queued < 2 ^ 32
  queued-fits = omega (
    arith,
    population-with_items v r p.priority (v.items p.priority ++ suc ix ∷ []) (omega (arith, low)),
    length-append (v.items p.priority) (suc ix ∷ []),
    fits,
  )

  pub queued-Waiting :
      (q : Que) → Models q queued → Waiting (with_parts s q (set s.ptable ix (make_ready p))) queued
  queued-Waiting q models = record {
    kernel =
        Kernel-with_parts w.kernel queued q (set s.ptable ix (make_ready p)) models refl
          (length-set s.ptable ix (make_ready p));
    everyone = λ n small.
        All-set s.ptable ix p (make_ready p) there refl (queued.items n) (queued-Everyone n small);
    fits = queued-fits;
  }

  abbrev pub readied : Os
  readied = record s { ptable = set s.ptable ix (make_ready p) }

  -- A process of the table that no queue holds is made ready, at the end of the queue of its priority, and
  -- some ready process goes on.
  pub yield-Resumes :
      Returns (λ _ s'. Resumes readied queued s') ((schedule (suc ix) >> dispatch) s)
  yield-Resumes =
      let (x, xs, e) = snoc_cons (v.items p.priority) (suc ix) in
      let here : queued.items p.priority ≡ v.items p.priority ++ suc ix ∷ [] = ground arith in
      bind
        (schedule-Becomes r ix p w.kernel room there low
          (omega (arith, items_fit v p.priority low, fits)))
        (λ _ s1 (q, e1, models).
          subst (λ t. Returns (λ _ s'. Resumes readied queued s') (dispatch t)) (sym e1)
            (mono (dispatch-Resumes p.priority x xs (queued-Waiting q models) low (here ∙ e))
              (λ _ s2 r. Resumes-que q r)))
