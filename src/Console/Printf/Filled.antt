-- ===== src/Console/Printf/Filled.antt =====
-- The options that a format code in a format string gives.
use os_team.Base.{
  ℕ, ◌+◌, ◌-◌, ◌*◌, ◌%◌, ◌^◌, ◌&&◌, leb, ◌≡◌, refl, Bool, true, false, ◌==◌, if◌then◌else◌, List,
  [], ◌∷◌, Option, none, some,
}
use os_team.Base.Chain.{All}
use os_team.Text.Format.{
  Item, literal, conversion, Mode, ordinary, percent, fill, digits, read_char, items, in_width,
  in_fill,
}
use os_team.Console.{extend}

-- The options that are read have one of the two fill characters.
abbrev pub Filled : Item → Type 0
Filled (literal ch) = Unit {0}
Filled (conversion left c width code) = extend c ≡ c

abbrev FilledMode : Mode → Type 0
FilledMode (digits left c width) = extend c ≡ c
FilledMode _ = Unit {0}

abbrev FilledStep : Mode × Option Item → Type 0
FilledStep (mode, none) = FilledMode mode
FilledStep (mode, some item) = FilledMode mode × Filled item

either :
    (b : Bool) (x y : Mode × Option Item)
    → FilledStep x
    → FilledStep y
    → FilledStep (if b then x else y)
either true x y p q = p
either false x y p q = q

in_width-Filled :
    (left : Bool) (c width ch : ℕ) → extend c ≡ c → FilledStep (in_width left c width ch)
in_width-Filled left c width ch h =
    either (leb 48 ch && leb ch 57) (digits left c ((width * 10 + (ch - 48)) % 2 ^ 32), none)
      (ordinary, some (conversion left c width ch)) h (tt, h)

in_fill-Filled : (left : Bool) (ch : ℕ) → FilledStep (in_fill left ch)
in_fill-Filled left ch =
    either (ch == 48) (digits left 48 0, none) (in_width left 32 0 ch) refl
      (in_width-Filled left 32 0 ch refl)

read_char-Filled : (mode : Mode) (ch : ℕ) → FilledMode mode → FilledStep (read_char mode ch)
unfolding read_char
read_char-Filled ordinary ch h =
    either (ch == 37) (percent, none) (ordinary, some (literal ch)) tt (tt, tt)
read_char-Filled percent ch h =
    either (ch == 45) (fill true, none) (in_fill false ch) tt (in_fill-Filled false ch)
read_char-Filled (fill left) ch h = in_fill-Filled left ch
read_char-Filled (digits left c width) ch h = in_width-Filled left c width ch h

abbrev pub AllFilled : Option (List Item) → Type 0
AllFilled none = Unit {0}
AllFilled (some is) = All Filled is

behind-Filled :
    (step : Mode × Option Item) (rest : Option (List Item))
    → FilledStep step
    → AllFilled rest
    → AllFilled (elim rest [
      | none ↦ none
      | some is ↦ elim (step.1) [ none ↦ some is | some i ↦ some (i ∷ is) ]
    ])
behind-Filled step none h a = tt
behind-Filled (mode, none) (some is) h a = a
behind-Filled (mode, some item) (some is) h a = (h.1, a)

step-mode : (step : Mode × Option Item) → FilledStep step → FilledMode (step.0)
step-mode (mode, none) h = h
step-mode (mode, some item) h = h.0

pub items-Filled : (mode : Mode) (fmt : List ℕ) → FilledMode mode → AllFilled (items mode fmt)
unfolding items
items-Filled ordinary [] h = tt
items-Filled percent [] h = tt
items-Filled (fill left) [] h = tt
items-Filled (digits left c width) [] h = tt
items-Filled mode (ch ∷ fmt) h =
    let step = read_char mode ch in
    let filled = read_char-Filled mode ch h in
    behind-Filled step (items (step.0) fmt) filled
      (items-Filled (step.0) fmt (step-mode step filled))
