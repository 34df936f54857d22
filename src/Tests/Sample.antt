-- ===== src/Tests/Sample.antt =====
-- The sample: the current process has used its quantum up to a tick, a second process is ready, and
-- two are asleep. Two qnodes are free.
use mathlib.Core.Path.{subst}
use os_team.Base.{
  sym, ◌∙◌, ℕ, suc, ◌+◌, ◌≡◌, ◌≢◌, refl, ap, false, ◌==◌, if◌then◌else◌, List, [], ◌∷◌, ◌++◌, map,
  some, get_elem?, replicate, arith, get-AllIndexed,
}
use os_team.Base.Chain.{Ptr, null}
use os_team.Kmem.State.{Km}
use os_team.Queues.State.{Queue, Que}
use os_team.Queues.Model.{View, IsQueue, Models}
use os_team.Queues.Table.{clear_queue}
use os_team.Procs.State.{Pcb, Os, State, clear_pcb, comp_wakeup_ptr}
use os_team.Procs.Model.{Kernel, sleep_ix}

abbrev pub km0 : Km
km0 = record {
  pages_of = λ _. 0;
  next_of = λ _. null;
  free_pages = null;
  free_slices = null;
  n_pages = 0;
  n_slices = 0;
  initialized = false;
}

abbrev pub next0 : Ptr → Ptr
next0 a = if a == 100 then 101 else if a == 120 then 121 else null

abbrev pub item0 : Ptr → Ptr
item0 a = if a == 110 then 2 else if a == 120 then 3 else if a == 121 then 4 else null

abbrev pub que0 : Que
que0 = record {
  km = km0;
  item_of = item0;
  next_of = next0;
  free_qnodes = 100;
  queues =
      clear_queue null
      ∷ record { head = 110; tail = 110; count = 1; compare = null }
      ∷ clear_queue null
      ∷ record { head = 120; tail = 121; count = 2; compare = comp_wakeup_ptr }
      ∷ clear_queue null
      ∷ clear_queue null
      ∷ clear_queue null
      ∷ clear_queue null
      ∷ [];
  queue_free = replicate 7 0 ++ 1 ∷ [];
}

abbrev pub view0 : View
view0 = record {
  room = 2;
  items = λ i. if i == 1 then 2 ∷ [] else if i == 3 then 3 ∷ 4 ∷ [] else [];
  order = λ i. if i == 3 then comp_wakeup_ptr else null;
}

nodes0 : ℕ → List Ptr
nodes0 i = if i == 1 then 110 ∷ [] else if i == 3 then 120 ∷ 121 ∷ [] else []

own0 : Ptr → ℕ
own0 a =
    if a == 100
    then 1
    else if a == 101
    then 1
    else if a == 110
    then 3
    else if a == 120
    then 5
    else if a == 121
    then 5
    else 0

no_address : (a : ℕ) → suc a ≢ null
no_address a e = cc

abbrev Fits : ℕ → Queue → Type 0
Fits i q =
    IsQueue que0 own0 i q (nodes0 i)
    × (view0.items i ≡ map item0 (nodes0 i))
    × (q.compare ≡ view0.order i)

idle :
    (i : ℕ) (compare : Ptr)
    → nodes0 i ≡ []
    → view0.items i ≡ []
    → compare ≡ view0.order i
    → Fits i (clear_queue compare)
idle i compare e f o = (
  subst (λ l. IsQueue que0 own0 i (clear_queue compare) l) (sym e)
      (record { chain = refl; owned = tt; tail = refl; count = refl }),
  f ∙ ap (map item0) (sym e),
  o,
)

sleep :
    IsQueue que0 own0 3
      (record { head = 120; tail = 121; count = 2; compare = comp_wakeup_ptr })
      (120 ∷ 121 ∷ [])
unfolding own0
sleep = record {
  chain = (refl, no_address 119, refl, (refl, no_address 120, refl, refl));
  owned = (refl, (refl, tt));
  tail = refl;
  count = refl;
}

standard :
    IsQueue que0 own0 1 (record { head = 110; tail = 110; count = 1; compare = null }) (110 ∷ [])
unfolding own0
standard = record {
  chain = (refl, no_address 109, refl, refl);
  owned = (refl, tt);
  tail = refl;
  count = refl;
}

fits : (i : ℕ) (q : Queue) → get_elem? que0.queues i ≡ some q → Fits i q
unfolding nodes0
fits i q e =
    let here : 0 + i ≡ i = omega arith in
    subst (λ n. Fits n q) here
      (get-AllIndexed Fits 0 que0.queues
        (
          idle 0 null refl refl refl,
          (
            (standard, refl, refl),
            (
              idle 2 null refl refl refl,
              (
                (sleep, refl, refl),
                (
                  idle 4 null refl refl refl,
                  (
                    idle 5 null refl refl refl,
                    (idle 6 null refl refl refl, (idle 7 null refl refl refl, tt)),
                  ),
                ),
              ),
            ),
          ),
        )
        i q e)

pub que0-Models : Models que0 view0
unfolding own0
que0-Models = record {
  own = own0;
  free = 100 ∷ 101 ∷ [];
  nodes = nodes0;
  pool = (refl, no_address 99, refl, (refl, no_address 100, refl, refl));
  pool_owned = (refl, (refl, tt));
  room = refl;
  n_queues = refl;
  queue = λ i q e. (fits i q e).0;
  items = λ i q e. (fits i q e).1;
  order = λ i q e. (fits i q e).2;
}

abbrev pub process : State → (priority quantum wakeup : ℕ) → Pcb
process st prio q time = record clear_pcb {
  state = st;
  priority = prio;
  quantum = q;
  wakeup = time;
  pid = 1;
}

abbrev pub os0 : Os
os0 = record {
  que = que0;
  free_stacks = null;
  stack_next = λ _. null;
  kstack = null;
  kesp = null;
  ptable =
      process State.running 0 1 0
      ∷ process State.ready 1 0 0
      ∷ process State.sleeping 0 0 10
      ∷ process State.sleeping 2 0 50
      ∷ replicate 21 clear_pcb;
  ready = 1 ∷ 2 ∷ 3 ∷ [];
  sleeping = 4;
  zombie = 5;
  blocked = 6;
  sioread = 7;
  current = 1;
  init_pcb = null;
  next_pid = 2;
}

fifo0 : (i : ℕ) → i ≢ sleep_ix → view0.order i ≡ null
fifo0 i ne = ground arith

pub os0-Kernel : Kernel os0 view0
os0-Kernel = record {
  que = que0-Models;
  ready = refl;
  sleeping = refl;
  zombie = refl;
  blocked = refl;
  sioread = refl;
  fifo = fifo0;
  timed = refl;
  procs = refl;
}
