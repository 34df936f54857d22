-- ===== src/Syscalls/Adopt.antt =====
-- The loop of sys_exit in kernel/syscalls.c that gives the children of a process to init.
use os_team.Base.{
  ℕ, suc, ◌+◌, ◌≤◌, ◌≡◌, ◌≢◌, refl, sym, ap, ◌∙◌, inl, inr, true, false, ◌&&◌, ◌==◌, if◌then◌else◌,
  Option, none, some, List, [], ◌∷◌, length, get_elem?, set, arith, Bool-cases,
}
use os_team.Procs.State.{Pcb, PcbPtr}
use os_team.Procs.Table.{scan, is_child}
use os_team.Syscalls.Exit.{is_zombie}

-- A process with another parent.
abbrev pub given : PcbPtr → Pcb → Pcb
given init p = record p { parent = init }

-- The table, from `&ptable[i]` on, with the children of `pcb` given to init.
unfoldable pub adopt : (init pcb : PcbPtr) (i : ℕ) → List Pcb → List Pcb
adopt init pcb i [] = []
adopt init pcb i (p ∷ ps) =
    (if is_child pcb (suc i) p then given init p else p) ∷ adopt init pcb (i + 1) ps

-- The number of the children of `pcb`.
unfoldable pub kids : (pcb : PcbPtr) (i : ℕ) → List Pcb → ℕ
kids pcb i [] = 0
kids pcb i (p ∷ ps) =
    let rest = kids pcb (i + 1) ps in if is_child pcb (suc i) p then rest + 1 else rest

-- The last child that has exited, `found` if there is none.
unfoldable pub last_zombie : (pcb : PcbPtr) (i : ℕ) (found : PcbPtr) → List Pcb → PcbPtr
last_zombie pcb i found [] = found
last_zombie pcb i found (p ∷ ps) =
    last_zombie pcb (i + 1) (if is_child pcb (suc i) p && is_zombie p.state then suc i else found)
      ps

pub kids-le-length : (pcb : PcbPtr) (i : ℕ) (table : List Pcb) → kids pcb i table ≤ length table
unfolding kids
kids-le-length pcb i [] = omega arith
kids-le-length pcb i (p ∷ ps) = ground (arith, kids-le-length pcb (i + 1) ps)

-- What the table is like when no child is found.
pub record Childless (init pcb : PcbPtr) (i : ℕ) (found : PcbPtr) (table : List Pcb) : Type 0 where
  pub same : adopt init pcb i table ≡ table
  pub zombie : last_zombie pcb i found table ≡ found

-- A child found, and what is left to do when it is given away.
pub record Next (init pcb : PcbPtr) (i : ℕ) (found : PcbPtr) (table : List Pcb) (ptr : PcbPtr)
    : Type 0 where
  pub ix : ℕ
  pub pcb_of : Pcb
  pub at : ptr ≡ suc (i + ix)
  pub there : get_elem? table ix ≡ some pcb_of
  pub child : (pcb_of.parent == pcb) ≡ true
  pub same : adopt init pcb i (set table ix (given init pcb_of)) ≡ adopt init pcb i table
  pub fewer : kids pcb i (set table ix (given init pcb_of)) + 1 ≡ kids pcb i table
  pub zombie :
      last_zombie pcb i
        (if is_zombie pcb_of.state then ptr else found)
        (set table ix (given init pcb_of))
      ≡ last_zombie pcb i found table

abbrev pub Finds : (init pcb : PcbPtr) (i : ℕ) (found : PcbPtr) → List Pcb → Option PcbPtr → Type 0
Finds init pcb i found table none = Childless init pcb i found table
Finds init pcb i found table (some ptr) = Next init pcb i found table ptr

module _ (init pcb : PcbPtr) (i : ℕ) (p : Pcb) (ps : List Pcb) where
  adopt-foreign :
      is_child pcb (suc i) p ≡ false → adopt init pcb i (p ∷ ps) ≡ p ∷ adopt init pcb (i + 1) ps
  unfolding adopt
  adopt-foreign foreign = rw foreign refl

  kids-foreign : is_child pcb (suc i) p ≡ false → kids pcb i (p ∷ ps) ≡ kids pcb (i + 1) ps
  unfolding kids
  kids-foreign foreign = rw foreign refl

  last_zombie-foreign :
      (found : PcbPtr)
      → is_child pcb (suc i) p ≡ false
      → last_zombie pcb i found (p ∷ ps) ≡ last_zombie pcb (i + 1) found ps
  unfolding last_zombie
  last_zombie-foreign found foreign = rw foreign refl

  last_zombie-mine :
      (found : PcbPtr)
      → is_child pcb (suc i) p ≡ true
      → last_zombie pcb i found (p ∷ ps)
        ≡ last_zombie pcb (i + 1) (if is_zombie p.state then suc i else found) ps
  unfolding last_zombie
  last_zombie-mine found mine = rw mine refl

module _ (init pcb : PcbPtr) (other : init ≢ pcb) where
  given-not_child : (ptr : PcbPtr) (p : Pcb) → is_child pcb ptr (given init p) ≡ false
  given-not_child ptr p = ground arith

  later :
      (i : ℕ) (found : PcbPtr) (p : Pcb) (ps : List Pcb) (o : Option PcbPtr)
      → is_child pcb (suc i) p ≡ false
      → Finds init pcb (i + 1) found ps o
      → Finds init pcb i found (p ∷ ps) o
  later i found p ps none foreign h = record {
    same = adopt-foreign init pcb i p ps foreign ∙ ap (λ l. p ∷ l) h.same;
    zombie = last_zombie-foreign init pcb i p ps found foreign ∙ h.zombie;
  }
  later i found p ps (some ptr) foreign h = record {
    ix = suc h.ix;
    pcb_of = h.pcb_of;
    at = h.at ∙ omega arith;
    there = h.there;
    child = h.child;
    same =
        adopt-foreign init pcb i p (set ps h.ix (given init h.pcb_of)) foreign
        ∙ ap (λ l. p ∷ l) h.same
        ∙ sym (adopt-foreign init pcb i p ps foreign);
    fewer = omega (
      arith,
      kids-foreign init pcb i p (set ps h.ix (given init h.pcb_of)) foreign,
      kids-foreign init pcb i p ps foreign,
      h.fewer,
    );
    zombie =
        last_zombie-foreign init pcb i p (set ps h.ix (given init h.pcb_of)) _ foreign
        ∙ h.zombie
        ∙ sym (last_zombie-foreign init pcb i p ps found foreign);
  }

  pub scan-Finds :
      (i : ℕ) (found : PcbPtr) (table : List Pcb)
      → Finds init pcb i found table (scan (is_child pcb) i table)
  unfolding scan adopt kids last_zombie
  scan-Finds i found [] = record { same = refl; zombie = refl }
  scan-Finds i found (p ∷ ps) = elim (Bool-cases (is_child pcb (suc i) p)) [
    | inl mine ↦
        let rid = given-not_child (suc i) p in
        rw mine (record {
          ix = 0;
          pcb_of = p;
          at = omega arith;
          there = refl;
          child = ground arith;
          same = adopt-foreign init pcb i (given init p) ps rid ∙ rw mine refl;
          fewer = kid_less i p ps rid mine;
          zombie =
              last_zombie-foreign init pcb i (given init p) ps _ rid
              ∙ sym (last_zombie-mine init pcb i p ps found mine);
        })
    | inr foreign ↦ rw foreign (later i found p ps _ foreign (scan-Finds (i + 1) found ps))
  ]
    where
      kid_less :
          (i : ℕ) (p : Pcb) (ps : List Pcb)
          → is_child pcb (suc i) (given init p) ≡ false
          → is_child pcb (suc i) p ≡ true
          → kids pcb i (given init p ∷ ps) + 1 ≡ kids pcb i (p ∷ ps)
      kid_less i p ps rid mine =
          ap (λ n. n + 1) (kids-foreign init pcb i (given init p) ps rid) ∙ rw mine refl
