-- ===== src/Clock/Table.antt =====
-- What waking the sleepers does to the process table.
use mathlib.Core.Path.{subst}
use os_team.Base.{
  ℕ, zero, suc, ◌<◌, ◌≡◌, refl, sym, ap, ◌∙◌, inl, inr, Option, none, some, List, [], ◌∷◌, length,
  get_elem?, set, length-set, get_elem?-set_self, get_elem?-set_ne, arith, ◌==◌, if◌then◌else◌,
  Bool-cases, eq_of_==,
}
use os_team.Base.Chain.{All}
use mathlib.Core.Path.{fun_ext}
use os_team.Procs.State.{Pcb, PcbPtr, State, n_prios, wakeup_at}

-- The pointer names a process of the table that can be scheduled.
pub record IsSchedulable (table : List Pcb) (ptr : PcbPtr) : Type 0 where
  pub ix : ℕ
  pub pcb : Pcb
  pub points : ptr ≡ suc ix
  pub there : get_elem? table ix ≡ some pcb
  pub low : pcb.priority < n_prios

abbrev pub priority_at : List Pcb → PcbPtr → ℕ
priority_at table zero = 0
priority_at table (suc ix) = elim (get_elem? table ix) [ none ↦ 0 | some p ↦ p.priority ]

abbrev pub make_ready : Pcb → Pcb
make_ready p = record p { state = State.ready }

-- The table after the processes are marked as ready, in order.
unfoldable pub mark_ready : List PcbPtr → List Pcb → List Pcb
mark_ready [] table = table
mark_ready (zero ∷ ps) table = mark_ready ps table
mark_ready (suc ix ∷ ps) table =
    mark_ready ps
      (elim (get_elem? table ix) [ none ↦ table | some p ↦ set table ix (make_ready p) ])

module _ (table : List Pcb) (ix : ℕ) (p : Pcb) (here : get_elem? table ix ≡ some p) where
  abbrev pub marked : List Pcb
  marked = set table ix (make_ready p)

  at :
      (jx : ℕ)
      → get_elem? marked jx ≡ (if jx == ix then some (make_ready p) else get_elem? table jx)
  at jx = elim (Bool-cases (jx == ix)) [
    | inl eq ↦ rw eq (
        subst (λ k. get_elem? marked k ≡ some (make_ready p)) (sym (eq_of_== jx ix eq))
          (get_elem?-set_self table ix (make_ready p) here))
    | inr ne ↦ rw ne (get_elem?-set_ne table ix jx (make_ready p) (ground arith))
  ]

  pub wakeup_at-marked : wakeup_at marked ≡ wakeup_at table
  wakeup_at-marked = fun_ext λ ptr. pointwise ptr
    where
      pointwise : (ptr : PcbPtr) → wakeup_at marked ptr ≡ wakeup_at table ptr
      pointwise zero = refl
      pointwise (suc jx) = ground (arith, at jx, eq_of_== jx ix)

  pub priority_at-marked : priority_at marked ≡ priority_at table
  priority_at-marked = fun_ext λ ptr. pointwise ptr
    where
      pointwise : (ptr : PcbPtr) → priority_at marked ptr ≡ priority_at table ptr
      pointwise zero = refl
      pointwise (suc jx) = ground (arith, at jx, eq_of_== jx ix)

-- A process that keeps its priority can be scheduled as before.
module _ (table : List Pcb) (ix : ℕ) (p q : Pcb) (here : get_elem? table ix ≡ some p)
    (same : q.priority ≡ p.priority) where
  pub IsSchedulable-set :
      (ptr : PcbPtr) → IsSchedulable table ptr → IsSchedulable (set table ix q) ptr
  IsSchedulable-set ptr h = elim (Bool-cases (h.ix == ix)) [
    | inl eq ↦ record {
      ix = ix;
      pcb = q;
      points = h.points ∙ ap suc (eq_of_== h.ix ix eq);
      there = get_elem?-set_self table ix q here;
      low = ground (arith, h.there, h.low, eq_of_== h.ix ix eq);
    }
    | inr ne ↦ record {
      ix = h.ix;
      pcb = h.pcb;
      points = h.points;
      there = get_elem?-set_ne table ix h.ix q (ground arith) ∙ h.there;
      low = h.low;
    }
  ]

  pub All-set :
      (l : List PcbPtr) → All (IsSchedulable table) l → All (IsSchedulable (set table ix q)) l
  All-set [] h = tt
  All-set (x ∷ xs) h = (IsSchedulable-set x h.0, All-set xs h.1)

-- The process keeps its priority and its quantum.
pub record Keeps (table : List Pcb) (ix : ℕ) (p : Pcb) : Type 0 where
  pub pcb : Pcb
  pub there : get_elem? table ix ≡ some pcb
  pub priority : pcb.priority ≡ p.priority
  pub quantum : pcb.quantum ≡ p.quantum

-- What holds of a table, and holds on when an entry is marked, holds when all are.
module _ {P : List Pcb → Type 0}
    (step : (table : List Pcb) (ix : ℕ) (p : Pcb)
      → get_elem? table ix ≡ some p
      → P table
      → P (set table ix (make_ready p))) where
  mark_entry :
      (table : List Pcb) (ix : ℕ) (o : Option Pcb)
      → get_elem? table ix ≡ o
      → P table
      → P (elim o [ none ↦ table | some p ↦ set table ix (make_ready p) ])
  mark_entry table ix none e h = h
  mark_entry table ix (some p) e h = step table ix p e h

  pub mark_ready-ind : (ps : List PcbPtr) (table : List Pcb) → P table → P (mark_ready ps table)
  unfolding mark_ready
  mark_ready-ind [] table h = h
  mark_ready-ind (zero ∷ ps) table h = mark_ready-ind ps table h
  mark_ready-ind (suc ix ∷ ps) table h =
      mark_ready-ind ps _ (mark_entry table ix (get_elem? table ix) refl h)

pub mark_ready-All :
    (ps : List PcbPtr) (table : List Pcb) (l : List PcbPtr)
    → All (IsSchedulable table) l
    → All (IsSchedulable (mark_ready ps table)) l
mark_ready-All ps table l h =
    mark_ready-ind {P = λ t. All (IsSchedulable t) l}
      (λ t ix p e a. All-set t ix p (make_ready p) e refl l a) ps table h

set-Keeps :
    (table : List Pcb) (ix jx : ℕ) (x p : Pcb)
    → get_elem? table ix ≡ some x
    → Keeps table jx p
    → Keeps (set table ix (make_ready x)) jx p
set-Keeps table ix jx x p e k = elim (Bool-cases (jx == ix)) [
  | inl eq ↦ record {
    pcb = make_ready x;
    there =
        subst (λ n. get_elem? (set table ix (make_ready x)) n ≡ some (make_ready x))
          (sym (eq_of_== jx ix eq)) (get_elem?-set_self table ix (make_ready x) e);
    priority = ground (arith, k.there, k.priority, eq_of_== jx ix eq);
    quantum = ground (arith, k.there, k.quantum, eq_of_== jx ix eq);
  }
  | inr ne ↦ record {
    pcb = k.pcb;
    there = get_elem?-set_ne table ix jx (make_ready x) (ground arith) ∙ k.there;
    priority = k.priority;
    quantum = k.quantum;
  }
]

pub mark_ready-Keeps :
    (ps : List PcbPtr) (table : List Pcb) (jx : ℕ) (p : Pcb)
    → get_elem? table jx ≡ some p
    → Keeps (mark_ready ps table) jx p
mark_ready-Keeps ps table jx p h =
    mark_ready-ind {P = λ t. Keeps t jx p} (λ t ix x e k. set-Keeps t ix jx x p e k) ps table
      (record { pcb = p; there = h; priority = refl; quantum = refl })

pub length-mark_ready :
    (ps : List PcbPtr) (table : List Pcb) → length (mark_ready ps table) ≡ length table
length-mark_ready ps table =
    mark_ready-ind {P = λ t. length t ≡ length table}
      (λ t ix p e h. length-set t ix (make_ready p) ∙ h) ps table refl
