-- ===== src/Text/Radix/RoundTrip.antt =====
-- `str2int` of lib/str2int.c on what `cvthex` and `cvtoct` store.
use mathlib.Core.Path.{subst}
use native.Mathlib.Nat.{
  one-le-pow, mul_comm, mul_assoc, mul_left_comm, pow-succ', le-mul_of_pos_right,
}
use os_team.Base.{
  ℕ, zero, suc, ◌+◌, ◌-◌, ◌*◌, ◌/◌, ◌%◌, ◌^◌, ◌≤◌, ◌<◌, ◌≡◌, refl, sym, ap, ◌∙◌, Bool, true, false,
  not, ◌||◌, ltb, ◌==◌, List, [], ◌∷◌, some, arith, Bool-cases, inl, inr,
}
use os_team.Base.Chain.{All}
use os_team.Text.Decimal.{convert, strchr, hexdigits, ucase, str2int, str2nat, skip_prefix}
use os_team.Text.Decimal.Digits.{IsDigit, digit_found}
use os_team.Text.Radix.{hex_digit, hex_rounds, cvthex, oct_rounds, cvtoct}

letter_found : (e : ℕ) → e < 6 → strchr 0 hexdigits (ucase (65 + e)) ≡ some (10 + e)
unfolding strchr
letter_found zero h = refl
letter_found (suc zero) h = refl
letter_found (suc (suc zero)) h = refl
letter_found (suc (suc (suc zero))) h = refl
letter_found (suc (suc (suc (suc zero)))) h = refl
letter_found (suc (suc (suc (suc (suc zero))))) h = refl
letter_found (suc (suc (suc (suc (suc (suc e)))))) h = absurd (omega arith)

-- The letters stand 7 characters behind the digits.
hex_found : (d : ℕ) → d < 16 → strchr 0 hexdigits (ucase (hex_digit d)) ≡ some d
hex_found d h = elim (Bool-cases (ltb d 10)) [
  | inl digit ↦ rw digit (digit_found d (ground arith))
  | inr letter ↦
      let at : 65 + (d - 10) ≡ 55 + d = ground arith in
      let same : 10 + (d - 10) ≡ d = ground arith in
      rw (letter, sym at) (letter_found (d - 10) (ground arith) ∙ ap some same)
]

hex_inside : (d : ℕ) → d < 16 → ltb 70 (ucase (hex_digit d)) ≡ false
hex_inside d h = ground arith

-- So much of the number is still to come, and what was read is not more than it.
left_over : (b r num value n : ℕ) → 0 < b → b ^ r * (num * 2 ^ 32 + value) ≡ n * 2 ^ 32 → num ≤ n
left_over b r num value n pos h =
    let whole : num * 2 ^ 32 + value ≤ (num * 2 ^ 32 + value) * b ^ r =
      le-mul_of_pos_right (num * 2 ^ 32 + value) (one-le-pow r b pos) in
    let turned = mul_comm (b ^ r) (num * 2 ^ 32 + value) in omega (arith, whole, turned, h)

-- A round takes a digit off the top of the value and puts it behind the number.
carried :
    (b r num value num' value' n : ℕ)
    → num' * 2 ^ 32 + value' ≡ b * (num * 2 ^ 32 + value)
    → b ^ suc r * (num * 2 ^ 32 + value) ≡ n * 2 ^ 32
    → b ^ r * (num' * 2 ^ 32 + value') ≡ n * 2 ^ 32
carried b r num value num' value' n step h = rw step (
    sym (mul_left_comm b (b ^ r) (num * 2 ^ 32 + value))
    ∙ sym (mul_assoc b (b ^ r) (num * 2 ^ 32 + value))
    ∙ ap (λ x. x * (num * 2 ^ 32 + value)) (sym (pow-succ' b r))
    ∙ h)

convert_hex :
    (num d : ℕ) (cs : List ℕ)
    → d < 16
    → num * 16 + d < 2 ^ 32
    → convert 16 70 num (hex_digit d ∷ cs) ≡ convert 16 70 (num * 16 + d) cs
unfolding convert
convert_hex num d cs h fits =
    let same : (num * 16 + d) % 2 ^ 32 ≡ num * 16 + d = omega arith in
    let found = hex_found d h in let inside = hex_inside d h in ground (arith, found, inside, same)

hex_rounds-reads :
    (rounds stored num value n : ℕ)
    → value < 2 ^ 32
    → n < 2 ^ 32
    → (stored ≡ 0 → num ≡ 0)
    → 16 ^ rounds * (num * 2 ^ 32 + value) ≡ n * 2 ^ 32
    → convert 16 70 num (hex_rounds rounds stored value) ≡ n
unfolding hex_rounds convert
hex_rounds-reads zero stored num value n word fits fresh h = omega (arith, h)
hex_rounds-reads (suc r) stored num value n word fits fresh h =
    let val = value / 2 ^ 28 in
    let stores = not (stored == 0) || (not (val == 0) || (r == 0)) in
    let step : (num * 16 + val) * 2 ^ 32 + value * 16 % 2 ^ 32 ≡ 16 * (num * 2 ^ 32 + value) =
      omega arith in
    let next = carried 16 r num value (num * 16 + val) (value * 16 % 2 ^ 32) n step h in
    let some_of = left_over 16 r (num * 16 + val) (value * 16 % 2 ^ 32) n (omega arith) next in
    let digit : val % 16 ≡ val = omega arith in
    elim (Bool-cases stores) [
      | inl written ↦
          rw (written, digit)
            (convert_hex num val (hex_rounds r (stored + 1) (value * 16 % 2 ^ 32)) (omega arith)
                (omega (arith, some_of))
              ∙ hex_rounds-reads r (stored + 1) (num * 16 + val) (value * 16 % 2 ^ 32) n
                  (omega arith) fits (λ e. absurd (omega arith)) next)
      | inr silent ↦
          let none_yet : stored ≡ 0 = ground arith in
          let top : val ≡ 0 = ground arith in
          let read = fresh none_yet in
          let same : num * 16 + val ≡ num = omega (arith, top) in
          rw silent (
            subst (λ x. convert 16 70 x (hex_rounds r stored (value * 16 % 2 ^ 32)) ≡ n) same
              (hex_rounds-reads r stored (num * 16 + val) (value * 16 % 2 ^ 32) n (omega arith) fits
                (λ e. omega (arith, top, read)) next))
    ]

convert_oct :
    (num d : ℕ) (cs : List ℕ)
    → d < 8
    → num * 8 + d < 2 ^ 32
    → convert 8 55 num ((48 + d) ∷ cs) ≡ convert 8 55 (num * 8 + d) cs
unfolding convert
convert_oct num d cs h fits =
    let same : (num * 8 + d) % 2 ^ 32 ≡ num * 8 + d = omega arith in
    let found = digit_found d (omega arith) in
    let inside : ltb 55 (ucase (48 + d)) ≡ false = ground arith in
    ground (arith, found, inside, same)

oct_rounds-reads :
    (rounds : ℕ) (stored : Bool) (num value n : ℕ)
    → value < 2 ^ 32
    → n < 2 ^ 32
    → (stored ≡ false → num ≡ 0)
    → 8 ^ rounds * (num * 2 ^ 32 + value) ≡ n * 2 ^ 32
    → convert 8 55 num (oct_rounds rounds stored (value / 2 ^ 29) value) ≡ n
unfolding oct_rounds convert
oct_rounds-reads zero stored num value n word fits fresh h = omega (arith, h)
oct_rounds-reads (suc r) stored num value n word fits fresh h =
    let val = value / 2 ^ 29 in
    let stores = r == 0 || (not (val == 0) || stored) in
    let step : (num * 8 + val) * 2 ^ 32 + value * 8 % 2 ^ 32 ≡ 8 * (num * 2 ^ 32 + value) =
      omega arith in
    let next = carried 8 r num value (num * 8 + val) (value * 8 % 2 ^ 32) n step h in
    let some_of = left_over 8 r (num * 8 + val) (value * 8 % 2 ^ 32) n (omega arith) next in
    let digit : val % 8 ≡ val = omega arith in
    elim (Bool-cases stores) [
      | inl written ↦
          rw (written, digit)
            (convert_oct num val
                (oct_rounds r true (value * 8 % 2 ^ 32 / 2 ^ 29) (value * 8 % 2 ^ 32)) (omega arith)
                (omega (arith, some_of))
              ∙ oct_rounds-reads r true (num * 8 + val) (value * 8 % 2 ^ 32) n (omega arith) fits
                  (λ e. ground (arith, e)) next)
      | inr silent ↦
          let none_yet : stored ≡ false = ground arith in
          let top : val ≡ 0 = ground arith in
          let read = fresh none_yet in
          let same : num * 8 + val ≡ num = omega (arith, top) in
          rw silent (
            subst
              (λ x.
                convert 8 55 x
                  (oct_rounds r false (value * 8 % 2 ^ 32 / 2 ^ 29) (value * 8 % 2 ^ 32))
                ≡ n)
              same
              (oct_rounds-reads r false (num * 8 + val) (value * 8 % 2 ^ 32) n (omega arith) fits
                (λ e. omega (arith, top, read)) next))
    ]

-- A digit or a letter of a hexadecimal number.
abbrev IsHexDigit : ℕ → Type 0
IsHexDigit c = (48 ≤ c) × (c ≤ 70)

hex_rounds-digits : (r stored value : ℕ) → All IsHexDigit (hex_rounds r stored value)
unfolding hex_rounds
hex_rounds-digits zero stored value = tt
hex_rounds-digits (suc r) stored value =
    let stores = not (stored == 0) || (not (value / 2 ^ 28 == 0) || (r == 0)) in
    elim (Bool-cases stores) [
      | inl written ↦
          rw written
            ((ground arith, ground arith), hex_rounds-digits r (stored + 1) (value * 16 % 2 ^ 32))
      | inr silent ↦ rw silent (hex_rounds-digits r stored (value * 16 % 2 ^ 32))
    ]

hex-str2int : (cs : List ℕ) → All IsHexDigit cs → str2int cs 16 ≡ convert 16 70 0 cs
unfolding str2int str2nat skip_prefix
hex-str2int [] h = refl
hex-str2int (c ∷ []) h = ground (arith, h.0)
hex-str2int (c ∷ d ∷ cs) h = ground (arith, h.0, h.1.0)

-- Every number of 32 bits is stored by `cvthex` with digits that `str2int` reads as the same number, in
-- base 16.
pub cvthex-read : (value : ℕ) → value < 2 ^ 32 → str2int (cvthex value) 16 ≡ value
unfolding cvthex
cvthex-read value word =
    hex-str2int (hex_rounds 8 0 value) (hex_rounds-digits 8 0 value)
    ∙ hex_rounds-reads 8 0 0 value value word word (λ e. refl) (omega arith)

oct_rounds-digits :
    (r : ℕ) (stored : Bool) (val value : ℕ) → All IsDigit (oct_rounds r stored val value)
unfolding oct_rounds
oct_rounds-digits zero stored val value = tt
oct_rounds-digits (suc r) stored val value =
    let value' = value * 8 % 2 ^ 32 in
    elim (Bool-cases (r == 0 || (not (val == 0) || stored))) [
      | inl written ↦
          rw written
            ((ground arith, ground arith), oct_rounds-digits r true (value' / 2 ^ 29) value')
      | inr silent ↦ rw silent (oct_rounds-digits r false (value' / 2 ^ 29) value')
    ]

oct-str2int : (cs : List ℕ) → All IsDigit cs → str2int cs 8 ≡ convert 8 55 0 cs
unfolding str2int str2nat
oct-str2int [] h = refl
oct-str2int (c ∷ cs) h = ground (arith, h.0)

-- After the first digit, of two bits, `cvtoct` shifts the value by three bits: what it stores for a
-- number below 2 ^ 29 reads in base 8 as twice the number.
pub cvtoct-doubled : (value : ℕ) → value < 2 ^ 29 → str2int (cvtoct value) 8 ≡ 2 * value
unfolding cvtoct oct_rounds
cvtoct-doubled value small =
    let top : value / 2 ^ 30 ≡ 0 = omega arith in
    let whole : value * 8 % 2 ^ 32 ≡ 8 * value = omega arith in
    oct-str2int (cvtoct value) (oct_rounds-digits 11 false (value / 2 ^ 30) value)
    ∙ rw (top, whole)
        (oct_rounds-reads 10 false 0 (8 * value) (2 * value) (omega arith) (omega arith) (λ e. refl)
          (omega arith))
