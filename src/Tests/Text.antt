-- ===== src/Tests/Text.antt =====
-- The routines of lib/ on small inputs.
use os_team.Base.{◌≡◌, arith}
use os_team.Text.Memory.{Memory, memmove}
use os_team.Text.Memory.Copy.{copied, memmove-copied}
use os_team.Text.Decimal.{cvtdec, cvtuns, str2int}
use os_team.Text.Decimal.RoundTrip.{ReadsBack, cvtdec-ReadsBack, cvtuns-ReadsBack}
use os_team.Base.{◌∷◌, [], some, inl, refl}
use os_team.Base.Chain.{update}
use os_team.Text.Strings.{strcat}
use os_team.Text.Strings.Appended.{StringAt, OnlyAt, strcat-Appended}
use os_team.Text.Radix.{cvthex, cvtoct}
use os_team.Text.Radix.RoundTrip.{cvthex-read, cvtoct-doubled}

-- Two areas that overlap, in a memory where each byte is its address.
memmove-copied_example : memmove 12 10 4 (λ a. a) 14 ≡ copied 12 10 4 (λ a. a) 14
memmove-copied_example = memmove-copied 12 10 4 (λ a. a) 14 (omega arith)

-- The number -42.
cvtdec-ReadsBack_example : ReadsBack 4294967254 (cvtdec 4294967254)
cvtdec-ReadsBack_example = cvtdec-ReadsBack 4294967254 (omega arith)

cvtuns-ReadsBack_example : ReadsBack 4294967254 (cvtuns 4294967254)
cvtuns-ReadsBack_example = cvtuns-ReadsBack 4294967254 (omega arith)

cvthex-read_example : str2int (cvthex 3735928559) 16 ≡ 3735928559
cvthex-read_example = cvthex-read 3735928559 (omega arith)

-- 8 is stored as the characters of 20.
cvtoct-doubled_example : str2int (cvtoct 8) 8 ≡ 16
cvtoct-doubled_example = cvtoct-doubled 8 (omega arith)

-- The strings `hi` at 4, with room behind it, and `x` at 20.
abbrev two_strings : Memory
two_strings = update (update (update (λ _. 0) 4 104) 5 105) 20 120

strcat-Appended_example :
    (m' : Memory) × (strcat 10 two_strings 4 20 ≡ some m')
    × StringAt m' 4 (104 ∷ 105 ∷ 120 ∷ [])
    × OnlyAt 6 1 two_strings m'
strcat-Appended_example =
    strcat-Appended 10 two_strings 4 20 (104 ∷ 105 ∷ []) (120 ∷ [])
      (refl, omega arith, (refl, omega arith, refl)) (refl, omega arith, refl) (inl (omega arith))
      (omega arith) (omega arith)
