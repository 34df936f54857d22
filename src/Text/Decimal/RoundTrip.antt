-- ===== src/Text/Decimal/RoundTrip.antt =====
-- `str2int` of lib/str2int.c on what `cvtdec` and `cvtuns` store.
use mathlib.Core.Path.{subst}
use os_team.Base.{
  ℕ, ◌+◌, ◌/◌, ◌%◌, ◌^◌, ◌<◌, ◌≡◌, refl, sym, ap, ◌∙◌, true, false, ◌==◌, List, [], ◌∷◌, ◌++◌,
  Option, some, arith, Bool-cases, inl, inr, eq_of_==,
}
use os_team.Base.Chain.{All}
use os_team.Text.Decimal.{
  cvtdec, cvtdec0, cvtuns, cvtuns0, convert, str2int, str2nat, negate, is_negative, max_digits,
  divide,
}
use os_team.Text.Decimal.Digits.{IsDigit, Reads, cvtdec0-Reads, Reads-only, Reads-divide}

-- What a conversion stores reads as the number.
abbrev pub ReadsBack : ℕ → Option (List ℕ) → Type 0
ReadsBack value stored = (cs : List ℕ) × (stored ≡ some cs) × (str2int cs 10 ≡ value)

Reads-str2int : (value : ℕ) (cs : List ℕ) → Reads value cs → str2int cs 10 ≡ value
unfolding str2int str2nat
Reads-str2int value cs r =
    let digits : All IsDigit (r.first ∷ r.rest) = subst (All IsDigit) r.split r.digits in
    let unsigned : (r.first == 45) ≡ false = ground (arith, digits.0) in
    subst (λ l. str2int l 10 ≡ value) (sym r.split)
      (rw unsigned (ap (convert 10 57 0) (sym r.split) ∙ r.number))

minus-str2int : (value : ℕ) (cs : List ℕ) → Reads value cs → str2int (45 ∷ cs) 10 ≡ negate value
unfolding str2int str2nat
minus-str2int value cs r = ap negate r.number

-- The smallest number has no negation, and is stored all the same.
cvtdec_least : cvtdec (2 ^ 31) ≡ some (45 ∷ 50 ∷ 49 ∷ 52 ∷ 55 ∷ 52 ∷ 56 ∷ 51 ∷ 54 ∷ 52 ∷ 56 ∷ [])
unfolding cvtdec cvtdec0 divide
cvtdec_least = refl

least_read : str2int (45 ∷ 50 ∷ 49 ∷ 52 ∷ 55 ∷ 52 ∷ 56 ∷ 51 ∷ 54 ∷ 52 ∷ 56 ∷ []) 10 ≡ 2 ^ 31
unfolding str2int str2nat convert os_team.Text.Decimal.strchr
least_read = refl

negative_ReadsBack : (value : ℕ) → 2 ^ 31 < value → value < 2 ^ 32 → ReadsBack value (cvtdec value)
unfolding cvtdec
negative_ReadsBack value low word =
    let sign : is_negative value ≡ true = ground arith in
    let (cs, e, r) =
      cvtdec0-Reads max_digits (45 ∷ []) (negate value) (omega arith) (omega arith) in
    rw sign (45 ∷ cs, e, minus-str2int (negate value) cs r ∙ omega arith)

-- Every number of 32 bits is stored by `cvtdec` with a sign and digits that `str2int` reads as the same
-- number, in base 10.
pub cvtdec-ReadsBack : (value : ℕ) → value < 2 ^ 32 → ReadsBack value (cvtdec value)
unfolding cvtdec
cvtdec-ReadsBack value word = elim (Bool-cases (is_negative value)) [
  | inr positive ↦
      let (cs, e, r) = cvtdec0-Reads max_digits [] value (ground arith) (ground arith) in
      rw positive (cs, e, Reads-str2int value cs r)
  | inl negative ↦ elim (Bool-cases (value == 2 ^ 31)) [
    | inl least ↦
        subst (λ n. ReadsBack n (cvtdec n)) (sym (eq_of_== value (2 ^ 31) least))
          (_, cvtdec_least, least_read)
    | inr other ↦ negative_ReadsBack value (ground arith) word
  ]
]

-- Every unsigned number is stored by `cvtuns` with digits that `str2int` reads as the same 32 bits.
pub cvtuns-ReadsBack : (value : ℕ) → value < 2 ^ 32 → ReadsBack value (cvtuns value)
unfolding cvtuns cvtuns0
cvtuns-ReadsBack value word = elim (Bool-cases (value / 10 == 0)) [
  | inl few ↦
      let last : value % 10 ≡ value = ground arith in
      rw (few, last)
        (_, refl, Reads-str2int value ((value + 48) ∷ []) (Reads-only value (ground arith)))
  | inr many ↦
      let (cs, e, r) = cvtdec0-Reads max_digits [] (value / 10) (omega arith) (omega arith) in
      rw (many, e)
        (_, refl, Reads-str2int value (cs ++ (value % 10 + 48) ∷ []) (Reads-divide value cs word r))
]
