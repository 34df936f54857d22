-- ===== src/Procs/Table/Scan.antt =====
-- What the scans of the process table find.
use mathlib.Core.Path.{subst}
use os_team.Base.{
  ℕ, zero, suc, ◌+◌, ◌<◌, ◌≡◌, refl, ◌∙◌, inl, inr, Bool, true, false, not, ◌&&◌, leb, ◌==◌, Option,
  none, some, List, [], ◌∷◌, get_elem?, arith, Bool-cases, ok, Cmd, pure,
}
use os_team.Base.Chain.{null}
use os_team.Queues.State.{Status, success, no_pcbs}
use os_team.Procs.State.{Pcb, PcbPtr, Os, is_unused, n_procs}
use os_team.Procs.Table.{scan, pcb_alloc, pcb_find_pid, pcb_find_child_of, is_child, is_user_pid}

-- An entry passes the test.
abbrev pub Passes : (PcbPtr → Pcb → Bool) → List Pcb → (i ix : ℕ) → Bool → Type 0
Passes test table i ix b = (p : Pcb) → get_elem? table ix ≡ some p → test (suc (i + ix)) p ≡ b

-- The first entry that passes, where the table begins at `&ptable[i]`; or none does.
abbrev pub FirstPassing : (PcbPtr → Pcb → Bool) → ℕ → List Pcb → Option PcbPtr → Type 0
FirstPassing test i table none = (ix : ℕ) → Passes test table i ix false
FirstPassing test i table (some ptr) =
    (ix : ℕ) × (p : Pcb) × (ptr ≡ suc (i + ix))
    × (get_elem? table ix ≡ some p)
    × (test ptr p ≡ true)
    × ((jx : ℕ) → jx < ix → Passes test table i jx false)

module _ (test : PcbPtr → Pcb → Bool) (i : ℕ) (p : Pcb) (ps : List Pcb)
    (failed : test (suc i) p ≡ false) where
  fails_first : Passes test (p ∷ ps) i zero false
  fails_first q e =
      let same : p ≡ q = cc in
      let here : i ≡ i + 0 = omega arith in
      subst (λ n. test (suc n) q ≡ false) here (subst (λ x. test (suc i) x ≡ false) same failed)

  fails_next : (ix : ℕ) → Passes test ps (i + 1) ix false → Passes test (p ∷ ps) i (suc ix) false
  fails_next ix h q e =
      let next : i + 1 + ix ≡ i + suc ix = omega arith in
      subst (λ n. test (suc n) q ≡ false) next (h q e)

  later :
      (found : Option PcbPtr)
      → FirstPassing test (i + 1) ps found
      → FirstPassing test i (p ∷ ps) found
  later none h = λ ix. all ix
    where
      all : (ix : ℕ) → Passes test (p ∷ ps) i ix false
      all zero = fails_first
      all (suc ix) = fails_next ix (h ix)
  later (some ptr) (ix, q, at, here, passed, earlier) =
      (suc ix, q, at ∙ omega arith, here, passed, all)
    where
      all : (jx : ℕ) → jx < suc ix → Passes test (p ∷ ps) i jx false
      all zero lt = fails_first
      all (suc jx) lt = fails_next jx (earlier jx (omega arith))

pub scan-FirstPassing :
    (test : PcbPtr → Pcb → Bool) (i : ℕ) (table : List Pcb)
    → FirstPassing test i table (scan test i table)
unfolding scan
scan-FirstPassing test i [] = λ ix p e. cc
scan-FirstPassing test i (p ∷ ps) =
    let rest = scan-FirstPassing test (i + 1) ps in
    elim (Bool-cases (test (suc i) p)) [
      | inl passed ↦ rw passed (zero, p, omega arith, refl, passed, λ jx lt. absurd (omega arith))
      | inr failed ↦ rw failed (later test i p ps failed (scan test (i + 1) ps) rest)
    ]

-- The pointer that a scan's result is returned as.
abbrev pub pointer : Option PcbPtr → PcbPtr
pointer none = null
pointer (some p) = p

abbrev pub status_of : Option PcbPtr → Status
status_of none = no_pcbs
status_of (some p) = success

-- `pcb_alloc` changes nothing. It succeeds with the first unused entry of the table, and fails exactly
-- when every entry is in use.
pub pcb_alloc-FirstPassing :
    (s : Os)
    → (found : Option PcbPtr) × (pcb_alloc s ≡ ok (status_of found, found) s)
      × FirstPassing (λ _ p. is_unused p.state) 0 s.ptable found
unfolding pcb_alloc
pcb_alloc-FirstPassing s =
    let test = λ (_ : PcbPtr) (p : Pcb). is_unused p.state in
    (scan test 0 s.ptable, by_result (scan test 0 s.ptable), scan-FirstPassing test 0 s.ptable)
  where
    by_result :
        (o : Option PcbPtr)
        → elim o as (λ _. Cmd Os (Status × Option PcbPtr)) [
          | none ↦ pure (no_pcbs, none)
          | some p ↦ pure (success, some p)
        ]
            s
          ≡ ok (status_of o, o) s
    by_result none = refl
    by_result (some p) = refl

pub return_pointer :
    (s : Os) (o : Option PcbPtr)
    → elim o as (λ _. Cmd Os PcbPtr) [ none ↦ pure null | some p ↦ pure p ] s ≡ ok (pointer o) s
return_pointer s none = refl
return_pointer s (some p) = refl

-- For the pid of a user process, `pcb_find_pid` changes nothing, and returns the first entry in use with
-- this pid; NULL exactly when there is none.
pub pcb_find_pid-FirstPassing :
    (pid : ℕ) (s : Os)
    → is_user_pid pid ≡ true
    → (found : Option PcbPtr) × (pcb_find_pid pid s ≡ ok (pointer found) s)
      × FirstPassing (λ _ p. p.pid == pid && not (is_unused p.state)) 0 s.ptable found
unfolding pcb_find_pid
pcb_find_pid-FirstPassing pid s user =
    let test = λ (_ : PcbPtr) (p : Pcb). p.pid == pid && not (is_unused p.state) in
    (
      scan test 0 s.ptable,
      rw user (return_pointer s (scan test 0 s.ptable)),
      scan-FirstPassing test 0 s.ptable,
    )

-- For a parent in the table, `pcb_find_child_of` changes nothing, and returns the first entry in use that
-- is another process with this parent; NULL exactly when there is none.
pub pcb_find_child_of-FirstPassing :
    (ix : ℕ) (s : Os)
    → ix < n_procs
    → (found : Option PcbPtr) × (pcb_find_child_of (suc ix) s ≡ ok (pointer found) s)
      × FirstPassing (is_child (suc ix)) 0 s.ptable found
unfolding pcb_find_child_of
pcb_find_child_of-FirstPassing ix s inside =
    let bounds : (leb 1 (suc ix) && leb (suc ix) n_procs) ≡ true = ground arith in
    (
      scan (is_child (suc ix)) 0 s.ptable,
      rw bounds (return_pointer s (scan (is_child (suc ix)) 0 s.ptable)),
      scan-FirstPassing (is_child (suc ix)) 0 s.ptable,
    )
