-- ===== src/Syscalls/Reparent.antt =====
-- The end of the loop of sys_exit in kernel/syscalls.c that gives the children of a process to init.
use os_team.Base.{
  ℕ, zero, suc, ◌<◌, ◌≡◌, ◌≢◌, refl, sym, ap, ◌∙◌, true, false, ◌&&◌, leb, ◌==◌, if◌then◌else◌,
  Option, none, some, List, length, get_elem?, set, arith, ok,
}
use os_team.Base.Chain.{null}
use os_team.Procs.State.{Os, Pcb, PcbPtr, n_procs, store}
use os_team.Procs.Model.{load-ok}
use os_team.Procs.Table.{scan, is_child, pcb_find_child_of}
use os_team.Procs.Table.Scan.{pointer, return_pointer}
use os_team.Syscalls.Exit.{reparent, reparent_rounds, is_zombie}
use os_team.Syscalls.Adopt.{adopt, kids, kids-le-length, last_zombie, given, Finds, scan-Finds}

-- The state with another table.
abbrev pub with_table : Os → List Pcb → Os
with_table s table = record s { ptable = table }

find-ok :
    (px : ℕ) (s : Os)
    → px < n_procs
    → pcb_find_child_of (suc px) s ≡ ok (pointer (scan (is_child (suc px)) 0 s.ptable)) s
unfolding pcb_find_child_of
find-ok px s inside =
    let bounds : (leb 1 (suc px) && leb (suc px) n_procs) ≡ true = ground arith in
    rw bounds (return_pointer s (scan (is_child (suc px)) 0 s.ptable))

module _ (px : ℕ) (inside : px < n_procs) where
  round_none :
      (rounds : ℕ) (found : PcbPtr) (s : Os)
      → scan (is_child (suc px)) 0 s.ptable ≡ none
      → reparent (suc rounds) (suc px) found s ≡ ok found s
  unfolding reparent
  round_none rounds found s e = rw (find-ok px s inside, e) refl

  round_some :
      (rounds : ℕ) (found : PcbPtr) (s : Os) (ix : ℕ) (p : Pcb)
      → scan (is_child (suc px)) 0 s.ptable ≡ some (suc ix)
      → get_elem? s.ptable ix ≡ some p
      → (p.parent == suc px) ≡ true
      → reparent (suc rounds) (suc px) found s
        ≡ reparent rounds
            (suc px)
            (if is_zombie p.state then suc ix else found)
            (with_table s (set s.ptable ix (given s.init_pcb p)))
  unfolding reparent store
  round_some rounds found s ix p e there child =
      let found_one : (suc ix == null) ≡ false = ground arith in
      rw (find-ok px s inside, e, found_one, load-ok s ix p there, child) refl

  -- The loop ends with the whole table done, when it has more rounds than there are children.
  reparent-adopts :
      (rounds : ℕ) (found : PcbPtr) (s : Os)
      → s.init_pcb ≢ suc px
      → kids (suc px) 0 s.ptable < rounds
      → reparent rounds (suc px) found s
        ≡ ok
            (last_zombie (suc px) 0 found s.ptable)
            (with_table s (adopt s.init_pcb (suc px) 0 s.ptable))
  reparent-adopts zero found s other enough = absurd (omega arith)
  reparent-adopts (suc rounds) found s other enough =
      by_scan rounds found s other enough
        (λ found' s' other' enough'. reparent-adopts rounds found' s' other' enough')
        (scan (is_child (suc px)) 0 s.ptable) refl
        (scan-Finds s.init_pcb (suc px) other 0 found s.ptable)
    where
      by_scan :
          (rounds : ℕ) (found : PcbPtr) (s : Os)
          → s.init_pcb ≢ suc px
          → kids (suc px) 0 s.ptable < suc rounds
          → ((found' : PcbPtr) (s' : Os)
              → s'.init_pcb ≢ suc px
              → kids (suc px) 0 s'.ptable < rounds
              → reparent rounds (suc px) found' s'
                ≡ ok
                    (last_zombie (suc px) 0 found' s'.ptable)
                    (with_table s' (adopt s'.init_pcb (suc px) 0 s'.ptable)))
          → (o : Option PcbPtr) → scan (is_child (suc px)) 0 s.ptable ≡ o
          → Finds s.init_pcb (suc px) 0 found s.ptable o
          → reparent (suc rounds) (suc px) found s
            ≡ ok
                (last_zombie (suc px) 0 found s.ptable)
                (with_table s (adopt s.init_pcb (suc px) 0 s.ptable))
      by_scan rounds found s other enough rest none e h =
          round_none rounds found s e
          ∙ ap (λ l. ok l s) (sym h.zombie)
          ∙ ap (λ t. ok (last_zombie (suc px) 0 found s.ptable) (with_table s t)) (sym h.same)
      by_scan rounds found s other enough rest (some ptr) e h =
          let at : ptr ≡ suc h.ix = h.at ∙ omega arith in
          let next = with_table s (set s.ptable h.ix (given s.init_pcb h.pcb_of)) in
          round_some rounds found s h.ix h.pcb_of (e ∙ ap some at) h.there h.child
          ∙ rest (if is_zombie h.pcb_of.state then suc h.ix else found) next other
              (omega (arith, h.fewer))
          ∙ ap (λ l. ok l (with_table s (adopt s.init_pcb (suc px) 0 next.ptable)))
              (ap
                  (λ q.
                    last_zombie (suc px) 0 (if is_zombie h.pcb_of.state then q else found)
                      next.ptable)
                  (sym at)
                ∙ h.zombie)
          ∙ ap (λ t. ok (last_zombie (suc px) 0 found s.ptable) (with_table s t)) h.same

-- The loop of `sys_exit` on a table of the full size, for a process of the table other than init: it
-- ends within its rounds. Every child of the process then has init as its parent, nothing else has
-- changed, and the result is the last child that had exited, or `found` if there is none.
pub reparent-adopted :
    (px : ℕ) (found : PcbPtr) (s : Os)
    → px < n_procs
    → length s.ptable ≡ n_procs
    → s.init_pcb ≢ suc px
    → reparent reparent_rounds (suc px) found s
      ≡ ok
          (last_zombie (suc px) 0 found s.ptable)
          (with_table s (adopt s.init_pcb (suc px) 0 s.ptable))
reparent-adopted px found s inside size other =
    reparent-adopts px inside reparent_rounds found s other
      (omega (arith, kids-le-length (suc px) 0 s.ptable))
