-- ===== src/Text/Decimal/Digits.antt =====
-- The digits that `cvtdec0` stores, read back by the loop of `str2int`.
use mathlib.Core.Path.{subst}
use os_team.Base.{
  ℕ, zero, suc, ◌+◌, ◌-◌, ◌*◌, ◌/◌, ◌%◌, ◌^◌, ◌≤◌, ◌<◌, ◌≡◌, refl, sym, ap, ◌∙◌, true, false, ltb,
  ◌==◌, List, [], ◌∷◌, ◌++◌, some, arith, Bool-cases, inl, inr,
}
use mathlib.Core.List.{append_assoc}
use os_team.Base.Chain.{All}
use os_team.Text.Decimal.{divide, cvtdec0, convert, strchr, hexdigits, ucase, is_negative}

-- A decimal digit is a character.
abbrev pub IsDigit : ℕ → Type 0
IsDigit c = (48 ≤ c) × (c ≤ 57)

pub digit_found : (d : ℕ) → d < 10 → strchr 0 hexdigits (ucase (48 + d)) ≡ some d
unfolding strchr
digit_found zero h = refl
digit_found (suc zero) h = refl
digit_found (suc (suc zero)) h = refl
digit_found (suc (suc (suc zero))) h = refl
digit_found (suc (suc (suc (suc zero)))) h = refl
digit_found (suc (suc (suc (suc (suc zero))))) h = refl
digit_found (suc (suc (suc (suc (suc (suc zero)))))) h = refl
digit_found (suc (suc (suc (suc (suc (suc (suc zero))))))) h = refl
digit_found (suc (suc (suc (suc (suc (suc (suc (suc zero)))))))) h = refl
digit_found (suc (suc (suc (suc (suc (suc (suc (suc (suc zero))))))))) h = refl
digit_found (suc (suc (suc (suc (suc (suc (suc (suc (suc (suc d)))))))))) h = absurd (omega arith)

convert_digit :
    (num c : ℕ) (cs : List ℕ)
    → IsDigit c
    → convert 10 57 num (c ∷ cs) ≡ convert 10 57 ((num * 10 + (c - 48)) % 2 ^ 32) cs
unfolding convert
convert_digit num c cs h =
    let char : 48 + (c - 48) ≡ c = omega arith in
    let found : strchr 0 hexdigits (ucase c) ≡ some (c - 48) =
      subst (λ x. strchr 0 hexdigits (ucase x) ≡ some (c - 48)) char
        (digit_found (c - 48) (omega arith)) in
    let inside : ltb 57 (ucase c) ≡ false = ground arith in ground (arith, found, inside)

pub convert_last :
    (num c : ℕ) (cs : List ℕ)
    → IsDigit c
    → All IsDigit cs
    → convert 10 57 num (cs ++ c ∷ []) ≡ (convert 10 57 num cs * 10 + (c - 48)) % 2 ^ 32
unfolding convert
convert_last num c [] h all = convert_digit num c [] h
convert_last num c (x ∷ xs) h all =
    convert_digit num x (xs ++ c ∷ []) all.0
    ∙ convert_last ((num * 10 + (x - 48)) % 2 ^ 32) c xs h all.1
    ∙ ap (λ n. (n * 10 + (c - 48)) % 2 ^ 32) (sym (convert_digit num x xs all.0))

-- The largest number of so many digits, and one.
abbrev pub limit : ℕ → ℕ
limit zero = 0
limit (suc zero) = 10
limit (suc (suc n)) = 10 * limit (suc n)

-- The characters that a number is stored as, and what they are read as.
pub record Reads (value : ℕ) (cs : List ℕ) : Type 0 where
  pub first : ℕ
  pub rest : List ℕ
  pub split : cs ≡ first ∷ rest
  pub digits : All IsDigit cs
  pub number : convert 10 57 0 cs ≡ value

pub Reads-last :
    (q c : ℕ) (cs : List ℕ)
    → Reads q cs
    → IsDigit c
    → q * 10 + (c - 48) < 2 ^ 32
    → Reads (q * 10 + (c - 48)) (cs ++ c ∷ [])
Reads-last q c cs r h fits = record {
  first = r.first;
  rest = r.rest ++ c ∷ [];
  split = ap (λ l. l ++ c ∷ []) r.split;
  digits = append_digit cs r.digits;
  number = convert_last 0 c cs h r.digits ∙ omega (arith, r.number);
}
  where
    append_digit : (l : List ℕ) → All IsDigit l → All IsDigit (l ++ c ∷ [])
    append_digit [] a = (h, tt)
    append_digit (x ∷ xs) a = (a.0, append_digit xs a.1)

divide_small : (value : ℕ) → value < 2 ^ 31 → divide value ≡ (value / 10, value % 10 + 48)
unfolding divide
divide_small value word = let sign : is_negative value ≡ false = ground arith in rw sign

store_only :
    (calls : ℕ) (buf : List ℕ) (value : ℕ)
    → value < 10
    → cvtdec0 (suc calls) buf value ≡ some (buf ++ (value + 48) ∷ [])
unfolding cvtdec0
store_only calls buf value small =
    let only : (value / 10 == 0) ≡ true = ground arith in
    let last : value % 10 ≡ value = omega arith in rw (divide_small value (omega arith), only, last)

store_last :
    (calls : ℕ) (buf front : List ℕ) (value : ℕ)
    → value < 2 ^ 31
    → 10 ≤ value
    → cvtdec0 calls buf (value / 10) ≡ some front
    → cvtdec0 (suc calls) buf value ≡ some (front ++ (value % 10 + 48) ∷ [])
unfolding cvtdec0
store_last calls buf front value word large e =
    let more : (value / 10 == 0) ≡ false = ground arith in
    rw (divide_small value word, more, e)
      (ap (λ (d : ℕ × ℕ). some (front ++ d.1 ∷ [])) (divide_small value word))

pub Reads-only : (value : ℕ) → value < 10 → Reads value ((value + 48) ∷ [])
unfolding convert
Reads-only value small = record {
  first = value + 48;
  rest = [];
  split = refl;
  digits = ((omega arith, omega arith), tt);
  number = convert_digit 0 (value + 48) [] (omega arith, omega arith) ∙ omega arith;
}

-- The digits of a quotient, and the last digit.
pub Reads-divide :
    (value : ℕ) (cs : List ℕ)
    → value < 2 ^ 32
    → Reads (value / 10) cs
    → Reads value (cs ++ (value % 10 + 48) ∷ [])
Reads-divide value cs word r =
    let whole : value / 10 * 10 + (value % 10 + 48 - 48) ≡ value = omega arith in
    subst (λ n. Reads n (cs ++ (value % 10 + 48) ∷ [])) whole
      (Reads-last (value / 10) (value % 10 + 48) cs r (omega arith, omega arith) (omega arith))

-- Below the bound of its 31 bits, a number is stored with its digits, behind what the buffer has.
pub cvtdec0-Reads :
    (calls : ℕ) (buf : List ℕ) (value : ℕ)
    → value < limit calls
    → value < 2 ^ 31
    → (cs : List ℕ) × (cvtdec0 calls buf value ≡ some (buf ++ cs)) × Reads value cs
cvtdec0-Reads zero buf value small word = absurd (omega arith)
cvtdec0-Reads (suc zero) buf value small word =
    ((value + 48) ∷ [], store_only zero buf value small, Reads-only value small)
cvtdec0-Reads (suc (suc calls)) buf value small word = elim (Bool-cases (ltb value 10)) [
  | inl few ↦ (
    (value + 48) ∷ [],
    store_only (suc calls) buf value (ground arith),
    Reads-only value (ground arith),
  )
  | inr many ↦
      let large : 10 ≤ value = ground arith in
      let (cs, e, r) = cvtdec0-Reads (suc calls) buf (value / 10) (omega arith) (omega arith) in
      (
        cs ++ (value % 10 + 48) ∷ [],
        store_last (suc calls) buf (buf ++ cs) value word large e
            ∙ ap some (append_assoc buf cs ((value % 10 + 48) ∷ [])),
        Reads-divide value cs (omega arith) r,
      )
]
