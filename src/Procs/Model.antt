-- ===== src/Procs/Model.antt =====
-- The kernel's process queues as `pcb_init` sets them up, over the queue module's abstract view.
use os_team.Base.{
  ℕ, suc, ◌≡◌, ◌≢◌, refl, ap, ◌∙◌, some, List, [], ◌∷◌, length, get_elem?, arith, ok, Cmd, Returns,
  returns, returned,
}
use os_team.Base.Chain.{null}
use os_team.Queues.State.{Que}
use os_team.Queues.Model.{View, Models}
use os_team.Procs.State.{Os, Pcb, n_procs, comp_wakeup_ptr, with_que, in_que, load}
use os_team.Procs.State.{Os, Pcb, n_procs, comp_wakeup_ptr}

-- The index of each queue in the array of queues. The ready queues have their priorities.
abbrev pub sleep_ix : ℕ
sleep_ix = 3

abbrev pub zombie_ix : ℕ
zombie_ix = 4

abbrev pub blocked_ix : ℕ
blocked_ix = 5

abbrev pub sio_ix : ℕ
sio_ix = 6

-- The queue handles are those that `pcb_init` stores, the sleep queue is ordered by wakeup time and
-- the others are FIFOs, and the queue module holds the entries that `v` lists.
pub record Kernel (s : Os) (v : View) : Type 0 where
  pub que : Models s.que v
  pub ready : s.ready ≡ 1 ∷ 2 ∷ 3 ∷ []
  pub sleeping : s.sleeping ≡ suc sleep_ix
  pub zombie : s.zombie ≡ suc zombie_ix
  pub blocked : s.blocked ≡ suc blocked_ix
  pub sioread : s.sioread ≡ suc sio_ix
  pub fifo : (i : ℕ) → i ≢ sleep_ix → v.order i ≡ null
  pub timed : v.order sleep_ix ≡ comp_wakeup_ptr
  pub procs : length s.ptable ≡ n_procs

-- The state after another queue state and another table.
abbrev pub with_parts : Os → Que → List Pcb → Os
with_parts s q table = record s { que = q; ptable = table }

pub Kernel-with_parts :
    {s : Os} {v : View} (k : Kernel s v) (v' : View) (q : Que) (table : List Pcb)
    → Models q v'
    → v'.order ≡ v.order
    → length table ≡ length s.ptable
    → Kernel (with_parts s q table) v'
Kernel-with_parts k v' q table models order size = record {
  que = models;
  ready = k.ready;
  sleeping = k.sleeping;
  zombie = k.zombie;
  blocked = k.blocked;
  sioread = k.sioread;
  fifo = λ i ne. ap (λ f. f i) order ∙ k.fifo i ne;
  timed = ap (λ f. f sleep_ix) order ∙ k.timed;
  procs = size ∙ k.procs;
}

-- The outcome of a command: only the queue module's state and the table are new; they have this view
-- and this content.
abbrev pub Becomes : Os → View → List Pcb → Unit {0} → Os → Type 0
Becomes s v' table _ s' = (q : Que) × (s' ≡ with_parts s q table) × Models q v'

pub in_que-Returns :
    {A : Type 0} {P : A → Que → Type 0} (s : Os) (m : Cmd Que A)
    → Returns P (m s.que)
    → Returns (λ a s'. (q : Que) × (s' ≡ with_que s q) × P a q) (in_que m s)
in_que-Returns {P = P} s m h = let (a, q, e, p) = returned h in rw e (returns (q, refl, p))

pub load-ok :
    (s : Os) (ix : ℕ) (p : Pcb) → get_elem? s.ptable ix ≡ some p → load (suc ix) s ≡ ok p s
unfolding load
load-ok s ix p here = ground arith
