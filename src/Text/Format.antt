-- ===== src/Text/Format.antt =====
-- lib/sprint.c, lib/padstr.c and lib/pad.c, and how a format string is read, there and in do_printf of
-- kernel/cio.c. The arguments are the words in memory from `ap` on; the strings are not changed by what
-- is stored at `dst`.
use os_team.Base.{
  ℕ, zero, suc, ◌+◌, ◌-◌, ◌*◌, ◌%◌, ◌^◌, Bool, true, false, ◌&&◌, leb, ◌==◌, ◌||◌, if◌then◌else◌,
  List, [], ◌∷◌, ◌++◌, Option, none, some, length,
}
use os_team.Base.Chain.{Ptr}
use os_team.Text.Memory.{Memory}
use os_team.Text.Words.{load_word, strlen}
use os_team.Text.Decimal.{cvtdec, cvtuns, is_negative}
use os_team.Text.Radix.{cvthex, cvtoct}

-- Where the loop over the format string is: between the format codes, behind the `%`, behind the
-- alignment, or in the width, with the options read so far.
pub data Mode : Type 0 where
  ordinary : Mode
  percent : Mode
  fill : (leftadjust : Bool) → Mode
  digits : (leftadjust : Bool) (padchar width : ℕ) → Mode

-- A character to show, or a format code with its options.
pub data Item : Type 0 where
  literal : (ch : ℕ) → Item
  conversion : (leftadjust : Bool) (padchar width code : ℕ) → Item

-- The width's next digit, or else the format code.
abbrev pub in_width : (leftadjust : Bool) (padchar width ch : ℕ) → Mode × Option Item
in_width leftadjust padchar width ch =
    if leb 48 ch && leb ch 57
    then (digits leftadjust padchar ((width * 10 + (ch - 48)) % 2 ^ 32), none)
    else (ordinary, some (conversion leftadjust padchar width ch))

abbrev pub in_fill : (leftadjust : Bool) (ch : ℕ) → Mode × Option Item
in_fill leftadjust ch =
    if ch == 48 then (digits leftadjust 48 0, none) else in_width leftadjust 32 0 ch

-- What one character of the format string does.
unfoldable pub read_char : Mode → (ch : ℕ) → Mode × Option Item
read_char ordinary ch = if ch == 37 then (percent, none) else (ordinary, some (literal ch))
read_char percent ch = if ch == 45 then (fill true, none) else in_fill false ch
read_char (fill leftadjust) ch = in_fill leftadjust ch
read_char (digits leftadjust padchar width) ch = in_width leftadjust padchar width ch

-- The format string, read. If it ends inside of a format code, the code goes on behind its NUL: `none`.
unfoldable pub items : Mode → (fmt : List ℕ) → Option (List Item)
items ordinary [] = some []
items mode [] = none
items mode (ch ∷ fmt) =
    let (mode', item) = read_char mode ch in
    elim (items mode' fmt) [
      | none ↦ none
      | some rest ↦ elim item [ none ↦ some rest | some i ↦ some (i ∷ rest) ]
    ]

-- The characters of a string of this length.
unfoldable pub chars_at : (len : ℕ) → Memory → Ptr → List ℕ
chars_at zero m str = []
chars_at (suc len) m str = m str ∷ chars_at len m (str + 1)

-- The most characters of a string argument that are looked at for the NUL.
abbrev pub longest : ℕ
longest = 65536

abbrev string_at : Memory → Ptr → Option (List ℕ)
string_at m str = elim (strlen longest m str) [ none ↦ none | some len ↦ some (chars_at len m str) ]

-- `c`, `d`, `s`, `x`, `o` and `u`
unfoldable pub is_code : (ch : ℕ) → Bool
is_code ch = ch == 99 || (ch == 100 || (ch == 115 || (ch == 120 || (ch == 111 || (ch == 117)))))

-- The characters that a format code puts for its argument.
unfoldable pub converted : Memory → (code word : ℕ) → Option (List ℕ)
converted m code word =
    if code == 99
    then some (word % 256 ∷ [])
    else if code == 100
    then cvtdec word
    else if code == 115
    then string_at m word
    else if code == 120
    then some (cvthex word)
    else if code == 111
    then some (cvtoct word)
    else cvtuns word

-- `pad`: the characters it stores.
unfoldable pub pad : (extra padchar : ℕ) → List ℕ
pad zero padchar = []
pad (suc extra) padchar = padchar ∷ pad extra padchar

-- `extra` of a field, as far as it is more than 0; the width is an `int`.
abbrev pub filler : (width len : ℕ) → ℕ
filler width len = if is_negative width then 0 else width - len

-- `padstr`, with the `len` characters of the string: the characters it stores.
unfoldable pub padstr : (str : List ℕ) (width : ℕ) (leftadjust : Bool) (padchar : ℕ) → List ℕ
padstr str width leftadjust padchar =
    let extra = filler width (length str) in
    (if leftadjust then [] else pad extra padchar)
    ++ (str ++ (if leftadjust then pad extra padchar else []))

-- The loop of `sprint`: the characters in front of the NUL.
unfoldable pub format : Memory → List Item → (ap : Ptr) → Option (List ℕ)
format m [] ap = some []
format m (literal ch ∷ rest) ap = elim (format m rest ap) [ none ↦ none | some cs ↦ some (ch ∷ cs) ]
format m (conversion leftadjust padchar width code ∷ rest) ap =
    let out = format m rest (if is_code code then ap + 4 else ap) in
    if is_code code
    then elim (converted m code (load_word m ap)) [
      | none ↦ none
      | some str ↦ elim out [
        | none ↦ none
        | some cs ↦ some (padstr str width leftadjust padchar ++ cs)
      ]
    ]
    else out

-- `sprint`
unfoldable pub sprint : Memory → (fmt : List ℕ) (ap : Ptr) → Option (List ℕ)
sprint m fmt ap = elim (items ordinary fmt) [ none ↦ none | some is ↦ format m is ap ]
