-- ===== src/Base/Command.antt =====
-- Kernel code as a command on a state: it returns, or it stops the machine.
use mathlib.Core.Path.{◌≡◌, refl}
use mathlib.Core.Bool.{Bool, true, false}

-- `panic` is a failed assertion or a call of `kpanic`, which does not return; `fault` is an access
-- through NULL or outside an array; `out_of_fuel` is a loop cut off by the model.
pub data Stop : Type 0 where
  panic fault out_of_fuel : Stop

pub data Run {ℓ} (S : Type 0) (A : Type ℓ) : Type ℓ where
  ok : A → S → Run S A
  stop : Stop → Run S A

abbrev pub Cmd {ℓ} : Type 0 → Type ℓ → Type ℓ
Cmd S A = S → Run S A

abbrev pub pure {ℓ} : {S : Type 0} {A : Type ℓ} → A → Cmd S A
pure a s = ok a s

abbrev pub halt {ℓ} : {S : Type 0} {A : Type ℓ} → Stop → Cmd S A
halt e s = stop e

abbrev pub and_then {ℓ κ} :
    {S : Type 0} {A : Type ℓ} {B : Type κ} → Run S A → (A → Cmd S B) → Run S B
and_then (ok a s) k = k a s
and_then (stop e) k = stop e

infixl 5 ◌>>=◌ ◌>>◌
abbrev pub ◌>>=◌ {ℓ κ} : {S : Type 0} {A : Type ℓ} {B : Type κ} → Cmd S A → (A → Cmd S B) → Cmd S B
m >>= k = λ s. and_then (m s) k

abbrev pub ◌>>◌ {ℓ} : {S : Type 0} {B : Type ℓ} → Cmd S (Unit {0}) → Cmd S B → Cmd S B
m >> k = m >>= λ _. k

abbrev pub get : {S : Type 0} → Cmd S S
get s = ok s s

abbrev pub put : {S : Type 0} → S → Cmd S (Unit {0})
put s _ = ok tt s

-- `assert` and `assert1`.
abbrev pub assert : {S : Type 0} → Bool → Cmd S (Unit {0})
assert true s = ok tt s
assert false s = stop panic

-- A command of a component, run on its part of a larger state.
abbrev pub embed {ℓ} : {S T : Type 0} {A : Type ℓ} → (T → S → T) → T → Run S A → Run T A
embed put_back t (ok a s) = ok a (put_back t s)
embed put_back t (stop e) = stop e

-- Total correctness: the run returns, and its result and state satisfy `P`.
pub data Returns {ℓ κ} {S : Type 0} {A : Type ℓ} (P : A → S → Type κ) : Run S A → Type (ℓ ⊔ κ) where
  returns : {a : A} {s : S} → P a s → Returns P (ok a s)

pub bind {ℓ κ ι} :
    {S : Type 0} {A B : Type ℓ} {P : A → S → Type κ} {Q : B → S → Type ι} {r : Run S A}
    {k : A → Cmd S B}
    → Returns P r
    → ((a : A) (s : S) → P a s → Returns Q (k a s))
    → Returns Q (and_then r k)
bind (returns p) next = next _ _ p

pub mono {ℓ κ ι} :
    {S : Type 0} {A : Type ℓ} {P : A → S → Type κ} {Q : A → S → Type ι} {r : Run S A}
    → Returns P r
    → ((a : A) (s : S) → P a s → Q a s)
    → Returns Q r
mono (returns p) weaken = returns (weaken _ _ p)

pub returned {ℓ κ} :
    {S : Type 0} {A : Type ℓ} {P : A → S → Type κ} {r : Run S A}
    → Returns P r
    → (a : A) × (s : S) × (r ≡ ok a s) × P a s
returned (returns p) = (_, _, refl, p)
