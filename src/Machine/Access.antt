-- ===== src/Machine/Access.antt =====
-- The access of a system call to the saved registers and the memory of a process of the table.
use os_team.Base.{
  ℕ, suc, ◌+◌, ◌≡◌, ◌≢◌, refl, false, ◌==◌, some, get_elem?, arith, ok, Run, Cmd, Returns, returns,
  returned, ◌>>◌, and_then, embed, stop,
}
use os_team.Base.Chain.{null}
use os_team.Text.Words.{load_word, store_word}
use os_team.Procs.State.{Os, Pcb, load}
use os_team.Procs.Model.{load-ok}
use os_team.Machine.{Machine, with_os, in_os, context_of, reg, set_reg}

pub in_os-Returns :
    {A : Type 0} {P : A → Os → Type 0} (m : Machine) (c : Cmd Os A)
    → Returns P (c m.clk.os)
    → Returns (λ a m'. (s : Os) × (m' ≡ with_os m s) × P a s) (in_os c m)
in_os-Returns m c h = let (a, s, e, p) = returned h in rw e (returns (s, refl, p))

module _ (m : Machine) (ix : ℕ) (p : Pcb) (here : get_elem? m.clk.os.ptable ix ≡ some p) where
  pub in_os-load : in_os (load (suc ix)) m ≡ ok p m
  in_os-load = rw (load-ok m.clk.os ix p here) refl

  module _ (saved : p.context ≢ null) where
    context_of-ok : context_of (suc ix) m ≡ ok p.context m
    unfolding context_of
    context_of-ok =
        let there : (p.context == null) ≡ false = ground (arith, saved) in
        simp (load-ok m.clk.os ix p here, there) refl

    pub reg-ok : (at : ℕ) → reg (suc ix) at m ≡ ok (load_word m.mem (p.context + at)) m
    unfolding reg
    reg-ok at = simp context_of-ok refl

    pub set_reg-ok :
        (at v : ℕ)
        → set_reg (suc ix) at v m ≡ ok tt (record m { mem = store_word (p.context + at) v m.mem })
    unfolding set_reg
    set_reg-ok at v = simp context_of-ok refl

-- Two commands of the process module, one after the other.
pub in_os-seq : (a b : Cmd Os (Unit {0})) (m : Machine) → (in_os a >> in_os b) m ≡ in_os (a >> b) m
in_os-seq a b m = by_run (a m.clk.os)
  where
    by_run :
        (r : Run Os (Unit {0}))
        → and_then (embed with_os m r) (λ _. in_os b) ≡ embed with_os m (and_then r (λ _. b))
    by_run (ok _ s) = refl
    by_run (stop e) = refl
