-- ===== src/Console/Printf.antt =====
-- cio_printf and cio_printf_at of kernel/cio.c. The format string is read as in Text.Format.
pub mod Filled
pub mod Printed
use os_team.Base.{
  ℕ, zero, suc, ◌+◌, Bool, ◌==◌, ◌%◌, if◌then◌else◌, List, [], ◌∷◌, Option, none, some, length, Cmd,
  pure, get, halt, fault, out_of_fuel, ◌>>=◌, ◌>>◌,
}
use os_team.Base.Chain.{Ptr}
use os_team.Text.Memory.{Memory}
use os_team.Text.Words.{load_word}
use os_team.Text.Format.{Item, literal, conversion, items, ordinary, is_code, converted, filler}
use os_team.Console.{Cio, putchar, putchar_at, puts, puts_at, extend}

-- Where the next character goes; `none` is at the cursor, for which `x` and `y` are -1.
abbrev pub Place : Type 0
Place = Option (ℕ × ℕ)

-- `mypad`
unfoldable pub mypad : Place → (extra padchar : ℕ) → Cmd Cio Place
mypad place zero padchar = pure place
mypad none (suc extra) padchar = putchar padchar >> mypad none extra padchar
mypad (some (x, y)) (suc extra) padchar =
    putchar_at x y padchar >> mypad (some (x + 1, y)) extra padchar

-- The characters in front of a NUL.
unfoldable pub before_nul : List ℕ → List ℕ
before_nul [] = []
before_nul (c ∷ cs) = if c == 0 then [] else c ∷ before_nul cs

-- The middle of `mypadstr`: the string itself.
unfoldable pub put_string : Place → (str : List ℕ) → Cmd Cio Place
put_string none str = puts (before_nul str) >> pure none
put_string (some (x, y)) str = puts_at x y (before_nul str) >> pure (some (x + length str, y))

-- `mypadstr`, with the `len` characters of the string, a NUL behind them.
unfoldable pub mypadstr :
    Place → (str : List ℕ) (width : ℕ) (leftadjust : Bool) (padchar : ℕ) → Cmd Cio Place
mypadstr place str width leftadjust padchar =
    let extra = filler width (length str) in
    if leftadjust
    then put_string place str >>= (λ p. mypad p extra padchar)
    else mypad place extra padchar >>= (λ p. put_string p str)

-- A character of the format string that is shown.
unfoldable pub put_literal : Place → (ch : ℕ) → Cmd Cio Place
put_literal none ch = putchar (extend ch) >> pure none
put_literal (some (x, y)) ch = do
  putchar_at x y (extend ch)
  s ← get
  pure (
      if ch == 10
      then some (s.scroll_min_x, y + 1)
      else if ch == 13
      then some (s.scroll_min_x, y)
      else some (x + 1, y))

-- The loop of `do_printf`. A string argument that is not seen to end is the end of the fuel; a format that
-- ends inside of a format code is read on behind its end, a fault.
unfoldable pub print_items : Memory → Place → List Item → (ap : Ptr) → Cmd Cio (Unit {0})
print_items m place [] ap = pure tt
print_items m place (literal ch ∷ rest) ap = put_literal place ch >>= λ p. print_items m p rest ap
print_items m place (conversion leftadjust padchar width code ∷ rest) ap =
    let next = if is_code code then ap + 4 else ap in
    let go_on : Place → Cmd Cio (Unit {0}) = λ p. print_items m p rest next in
    if is_code code
    then elim (converted m code (load_word m ap)) [
      | none ↦ halt out_of_fuel
      | some str ↦ mypadstr place str width leftadjust padchar >>= go_on
    ]
    else go_on place

-- `do_printf`
unfoldable pub do_printf : Memory → Place → (fmt : List ℕ) (ap : Ptr) → Cmd Cio (Unit {0})
do_printf m place fmt ap = elim (items ordinary fmt) [
  | none ↦ halt fault
  | some is ↦ print_items m place is ap
]

-- `cio_printf` and `cio_printf_at`
unfoldable pub printf : Memory → (fmt : List ℕ) (ap : Ptr) → Cmd Cio (Unit {0})
printf m fmt ap = do_printf m none fmt ap

unfoldable pub printf_at : Memory → (x y : ℕ) (fmt : List ℕ) (ap : Ptr) → Cmd Cio (Unit {0})
printf_at m x y fmt ap = do_printf m (some (x, y)) fmt ap
