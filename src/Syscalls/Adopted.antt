-- ===== src/Syscalls/Adopted.antt =====
-- The table after the loop of sys_exit in kernel/syscalls.c that gives the children to init.
use os_team.Base.{
  ℕ, zero, suc, ◌+◌, ◌≡◌, refl, ap, inl, inr, some, List, [], ◌∷◌, length, get_elem?, Bool-cases,
}
use os_team.Base.Chain.{All}
use os_team.Procs.State.{Pcb, PcbPtr}
use os_team.Procs.Table.{is_child}
use os_team.Clock.Table.{IsSchedulable}
use os_team.Syscalls.Adopt.{adopt, given}

module _ (init pcb : PcbPtr) where
  pub length-adopt : (i : ℕ) (table : List Pcb) → length (adopt init pcb i table) ≡ length table
  unfolding adopt
  length-adopt i [] = refl
  length-adopt i (p ∷ ps) = ap suc (length-adopt (i + 1) ps)

  -- An entry keeps all but its parent.
  pub adopt-entry :
      (i : ℕ) (table : List Pcb) (ix : ℕ) (p : Pcb)
      → get_elem? table ix ≡ some p
      → (a : PcbPtr) × (get_elem? (adopt init pcb i table) ix ≡ some (given a p))
  unfolding adopt
  adopt-entry i [] ix p e = cc
  adopt-entry i (x ∷ xs) zero p e = elim (Bool-cases (is_child pcb (suc i) x)) [
    | inl mine ↦ let same : x ≡ p = cc in (init, rw mine (ap (λ q. some (given init q)) same))
    | inr foreign ↦ (p.parent, rw foreign e)
  ]
  adopt-entry i (x ∷ xs) (suc ix) p e = adopt-entry (i + 1) xs ix p e

  IsSchedulable-adopt :
      (table : List Pcb) (ptr : PcbPtr)
      → IsSchedulable table ptr
      → IsSchedulable (adopt init pcb 0 table) ptr
  IsSchedulable-adopt table ptr h =
      let (a, e) = adopt-entry 0 table h.ix h.pcb h.there in
      record { ix = h.ix; pcb = given a h.pcb; points = h.points; there = e; low = h.low }

  pub All-adopt :
      (table : List Pcb) (l : List PcbPtr)
      → All (IsSchedulable table) l
      → All (IsSchedulable (adopt init pcb 0 table)) l
  All-adopt table [] h = tt
  All-adopt table (x ∷ xs) h = (IsSchedulable-adopt table x h.0, All-adopt table xs h.1)
