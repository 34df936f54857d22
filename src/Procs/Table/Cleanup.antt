-- ===== src/Procs/Table/Cleanup.antt =====
-- pcb_cleanup of kernel/procs.c, with the stack that it gives back.
use os_team.Base.{
  ℕ, zero, suc, ◌≡◌, refl, ap, inl, inr, false, ◌==◌, if◌then◌else◌, some, List, [], ◌∷◌, get_elem?,
  set, get_elem?-set_self, arith, Bool-cases, eq_of_==, Returns, returns,
}
use os_team.Base.Chain.{Ptr, null, update}
use os_team.Stacks
use os_team.Procs.State.{Os, Pcb, State, store}
use os_team.Procs.Model.{load-ok}
use os_team.Procs.Table.{pcb_free, pcb_cleanup, free_stack}

-- The entry of the process is unused and has no stack, and the other entries are as before. Its stack,
-- if it had one, is the first of the free stacks.
pub record Cleaned (s : Os) (ix : ℕ) (p : Pcb) (s' : Os) : Type 0 where
  pub table : List Pcb
  pub free_stacks : Ptr
  pub stack_next : Ptr → Ptr
  pub state : s' ≡ record s { ptable = table; free_stacks = free_stacks; stack_next = stack_next }
  pub sets : table ≡ set s.ptable ix (record p { state = State.unused; stack = null })
  pub stacks :
      if p.stack == null
      then (free_stacks ≡ s.free_stacks) × (stack_next ≡ s.stack_next)
      else (free_stacks ≡ p.stack) × (stack_next ≡ update s.stack_next p.stack s.free_stacks)

set-set : (xs : List Pcb) (i : ℕ) (v w : Pcb) → set (set xs i v) i w ≡ set xs i w
set-set [] i v w = refl
set-set (x ∷ xs) zero v w = refl
set-set (x ∷ xs) (suc i) v w = ap (λ l. x ∷ l) (set-set xs i v w)

-- `pcb_cleanup` of a process of the table returns. Its stack goes to the front of the free stacks, if it
-- has one, and its entry is unused and without a stack; nothing else changes.
pub pcb_cleanup-Cleaned :
    (s : Os) (ix : ℕ) (p : Pcb)
    → get_elem? s.ptable ix ≡ some p
    → Returns (λ _ s'. Cleaned s ix p s') (pcb_cleanup (suc ix) s)
unfolding pcb_cleanup free_stack pcb_free store Stacks.free
pcb_cleanup-Cleaned s ix p here =
    let named : (suc ix == null) ≡ false = ground arith in
    elim (Bool-cases (p.stack == null)) [
      | inl none ↦
          rw (named, load-ok s ix p here, none, load-ok s ix p here)
            (returns (record {
              table = set s.ptable ix (record p { state = State.unused });
              free_stacks = s.free_stacks;
              stack_next = s.stack_next;
              state = refl;
              sets =
                  ap (λ k. set s.ptable ix (record p { state = State.unused; stack = k }))
                    (eq_of_== p.stack null none);
              stacks = rw none (refl, refl);
            }))
      | inr stack ↦
          let s1 : Os = record s {
            free_stacks = p.stack;
            stack_next = update s.stack_next p.stack s.free_stacks;
          } in
          let bare : Pcb = record p { stack = null } in
          let s2 : Os = record s1 { ptable = set s.ptable ix bare } in
          rw
            (
              named,
              load-ok s ix p here,
              stack,
              load-ok s2 ix bare (get_elem?-set_self s.ptable ix bare here),
            )
            (returns (record {
              table = set (set s.ptable ix bare) ix (record bare { state = State.unused });
              free_stacks = p.stack;
              stack_next = update s.stack_next p.stack s.free_stacks;
              state = refl;
              sets = set-set s.ptable ix bare (record bare { state = State.unused });
              stacks = rw stack (refl, refl);
            }))
    ]
