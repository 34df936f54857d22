-- ===== src/Text/Radix.antt =====
-- lib/cvthex.c and lib/cvtoct.c: numbers in base 16 and 8. A buffer that is written from its start on is
-- the list of the characters stored in it, before the NUL.
pub mod RoundTrip
use os_team.Base.{
  ℕ, zero, suc, ◌+◌, ◌*◌, ◌/◌, ◌%◌, ◌^◌, Bool, true, false, not, ltb, ◌==◌, ◌||◌, if◌then◌else◌,
  List, [], ◌∷◌,
}

-- `hexdigits[val]`
abbrev pub hex_digit : (val : ℕ) → ℕ
hex_digit val = if ltb val 10 then 48 + val else 55 + val

-- The loop of `cvthex`, with the rounds left: the characters it stores.
unfoldable pub hex_rounds : (rounds chars_stored value : ℕ) → List ℕ
hex_rounds zero chars_stored value = []
hex_rounds (suc rounds) chars_stored value =
    let val = value / 2 ^ 28 in
    let stores = not (chars_stored == 0) || (not (val == 0) || (rounds == 0)) in
    let rest =
      hex_rounds rounds (if stores then chars_stored + 1 else chars_stored) (value * 16 % 2 ^ 32) in
    if stores then hex_digit (val % 16) ∷ rest else rest

-- `cvthex`
unfoldable pub cvthex : (value : ℕ) → List ℕ
cvthex value = hex_rounds 8 0 value

-- The loop of `cvtoct`, with the rounds left; `stored` is its flag `chars_stored`.
unfoldable pub oct_rounds : (rounds : ℕ) (stored : Bool) (val value : ℕ) → List ℕ
oct_rounds zero stored val value = []
oct_rounds (suc rounds) stored val value =
    let stores = rounds == 0 || (not (val == 0) || stored) in
    let value' = value * 8 % 2 ^ 32 in
    let rest = oct_rounds rounds stores (value' / 2 ^ 29) value' in
    if stores then (48 + val % 8) ∷ rest else rest

-- `cvtoct`
unfoldable pub cvtoct : (value : ℕ) → List ℕ
cvtoct value = oct_rounds 11 false (value / 2 ^ 30) value
