-- ===== src/Text/Decimal.antt =====
-- lib/cvtdec.c, lib/cvtdec0.c, lib/cvtuns.c, lib/cvtuns0.c and lib/str2int.c: numbers and their digits.
-- A string is the list of its characters, before the NUL. A buffer that is written from its start on is
-- the list of the characters stored so far, and its length is the result `bp - buf`. An `int` is kept as
-- its 32-bit pattern.
pub mod Digits
pub mod RoundTrip
use os_team.Base.{
  ℕ, zero, suc, ◌+◌, ◌-◌, ◌*◌, ◌/◌, ◌%◌, ◌^◌, Bool, true, false, ltb, leb, not, ◌==◌, ◌&&◌, ◌||◌,
  if◌then◌else◌, List, [], ◌∷◌, ◌++◌, Option, none, some,
}

abbrev pub is_negative : ℕ → Bool
is_negative value = leb (2 ^ 31) value

abbrev pub negate : ℕ → ℕ
negate value = (2 ^ 32 - value) % 2 ^ 32

-- The quotient and the last digit of `cvtdec0`, where `value` may be the number that has no negation.
unfoldable pub divide : ℕ → ℕ × ℕ
divide value =
    if is_negative value
    then (if negate value / 10 == 0 then (0, 48 - negate value) else (214748364, 8 + 48))
    else (value / 10, value % 10 + 48)

-- `cvtdec0`, with the recursive calls left; it is given the buffer and adds the digits.
unfoldable pub cvtdec0 : (calls : ℕ) → List ℕ → ℕ → Option (List ℕ)
cvtdec0 zero buf value = none
cvtdec0 (suc calls) buf value =
    let (quotient, last) = divide value in
    let front = cvtdec0 calls buf quotient in
    if quotient == 0
    then some (buf ++ last ∷ [])
    else elim front [ none ↦ none | some buf' ↦ some (buf' ++ last ∷ []) ]

-- Ten digits are enough for a 32-bit number.
abbrev pub max_digits : ℕ
max_digits = 10

-- `cvtdec`
unfoldable pub cvtdec : ℕ → Option (List ℕ)
cvtdec value =
    if is_negative value
    then cvtdec0 max_digits (45 ∷ []) (negate value)
    else cvtdec0 max_digits [] value

-- `cvtuns0`, which leaves all digits but the last to `cvtdec0`
unfoldable pub cvtuns0 : List ℕ → ℕ → Option (List ℕ)
cvtuns0 buf value =
    if value / 10 == 0
    then some (buf ++ (value % 10 + 48) ∷ [])
    else elim (cvtdec0 max_digits buf (value / 10)) [
      | none ↦ none
      | some buf' ↦ some (buf' ++ (value % 10 + 48) ∷ [])
    ]

-- `cvtuns`
unfoldable pub cvtuns : ℕ → Option (List ℕ)
cvtuns value = cvtuns0 [] value

-- `UCASE`, on a character of ASCII
abbrev pub ucase : ℕ → ℕ
ucase c = if leb 97 c && leb c 122 then c - 32 else c

abbrev pub hexdigits : List ℕ
hexdigits = 48 ∷ 49 ∷ 50 ∷ 51 ∷ 52 ∷ 53 ∷ 54 ∷ 55 ∷ 56 ∷ 57 ∷ 65 ∷ 66 ∷ 67 ∷ 68 ∷ 69 ∷ 70 ∷ []

-- `strchr`: the index of the first occurrence of the character, from `i` on.
unfoldable pub strchr : (i : ℕ) → List ℕ → (ch : ℕ) → Option ℕ
strchr i [] ch = none
strchr i (c ∷ cs) ch = if c == ch then some i else strchr (i + 1) cs ch

-- The loop of `str2int`: the number read so far, and the characters from `str` on.
unfoldable pub convert : (base bchar num : ℕ) → List ℕ → ℕ
convert base bchar num [] = num
convert base bchar num (c ∷ cs) = elim (strchr 0 hexdigits (ucase c)) [
  | none ↦ num
  | some digit ↦
      if ltb bchar (ucase c) then num else convert base bchar ((num * base + digit) % 2 ^ 32) cs
]

-- A prefix `0x`, `0X`, `0b` or `0B`, skipped; `low` and `high` are the letter.
unfoldable pub skip_prefix : (low high : ℕ) → List ℕ → List ℕ
skip_prefix low high (c ∷ d ∷ cs) = if c == 48 && (d == low || (d == high)) then cs else c ∷ d ∷ cs
skip_prefix low high str = str

-- `str2int` behind the sign
unfoldable pub str2nat : (base : ℕ) → List ℕ → ℕ
str2nat base str =
    if base == 10
    then convert base 57 0 str
    else if base == 16
    then convert base 70 0 (skip_prefix 120 88 str)
    else if base == 2
    then convert base (48 + base - 1) 0 (skip_prefix 98 66 str)
    else convert base (48 + base - 1) 0 str

-- `str2int`
unfoldable pub str2int : List ℕ → (base : ℕ) → ℕ
str2int [] base = str2nat base []
str2int (c ∷ cs) base = if c == 45 then negate (str2nat base cs) else str2nat base (c ∷ cs)
