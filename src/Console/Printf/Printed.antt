-- ===== src/Console/Printf/Printed.antt =====
-- cio_printf next to sprint of lib/sprint.c and cio_puts.
use mathlib.Core.Path.{subst}
use mathlib.Core.List.{append-nil}
use os_team.Base.{
  ℕ, zero, suc, ◌+◌, ◌≡◌, ◌≢◌, refl, sym, ap, ◌∙◌, Bool, true, false, ◌==◌, if◌then◌else◌, List, [],
  ◌∷◌, ◌++◌, Option, none, some, length, arith, Cmd, Run, ok, stop, pure, halt, fault, out_of_fuel,
  and_then, ◌>>=◌, ◌>>◌,
}
use os_team.Base.Chain.{Ptr, All}
use os_team.Text.Memory.{Memory}
use os_team.Text.Words.{load_word}
use os_team.Text.Format.{
  Item, literal, conversion, ordinary, items, is_code, converted, filler, pad, padstr, format,
  sprint,
}
use os_team.Console.{Cio, putchar, puts, extend}
use os_team.Console.Printf.Filled.{Filled, AllFilled, items-Filled}
use os_team.Console.Printf.{
  Place, mypad, before_nul, put_string, mypadstr, put_literal, print_items, do_printf, printf,
}

-- A character that does not end a string.
abbrev pub Shown : ℕ → Type 0
Shown c = c ≢ 0

All-left : (xs ys : List ℕ) → All Shown (xs ++ ys) → All Shown xs
All-left [] ys h = tt
All-left (x ∷ xs) ys h = (h.0, All-left xs ys h.1)

All-right : (xs ys : List ℕ) → All Shown (xs ++ ys) → All Shown ys
All-right [] ys h = h
All-right (x ∷ xs) ys h = All-right xs ys h.1

before_nul-all : (xs : List ℕ) → All Shown xs → before_nul xs ≡ xs
unfolding before_nul
before_nul-all [] h = refl
before_nul-all (x ∷ xs) h =
    let more : (x == 0) ≡ false = ground (arith, h.0) in rw (more, before_nul-all xs h.1) refl

and_then_assoc :
    {A B C : Type 0} (r : Run Cio A) (f : A → Cmd Cio B) (g : B → Cmd Cio C)
    → and_then (and_then r f) g ≡ and_then r (λ a s. and_then (f a s) g)
and_then_assoc (ok a s) f g = refl
and_then_assoc (stop e) f g = refl

assoc :
    {A B C : Type 0} (c : Cmd Cio A) (f : A → Cmd Cio B) (g : B → Cmd Cio C)
    → ((c >>= f) >>= g) ≡ (c >>= (λ a. f a >>= g))
assoc c f g = λ i s. and_then_assoc (c s) f g i

-- Two strings, one after the other.
puts-append : (xs ys : List ℕ) → puts (xs ++ ys) ≡ (puts xs >> puts ys)
unfolding puts
puts-append [] ys = refl
puts-append (x ∷ xs) ys =
    ap (λ r. putchar (extend x) >> r) (puts-append xs ys)
    ∙ sym (assoc (putchar (extend x)) (λ _. puts xs) (λ _. puts ys))

mypad-puts :
    (n c : ℕ) (k : Place → Cmd Cio (Unit {0}))
    → extend c ≡ c
    → (mypad none n c >>= k) ≡ (puts (pad n c) >> k none)
unfolding mypad pad puts
mypad-puts zero c k h = refl
mypad-puts (suc n) c k h =
    assoc (putchar c) (λ _. mypad none n c) k
    ∙ ap (λ r. putchar c >> r) (mypad-puts n c k h)
    ∙ ap (λ x. putchar x >> (puts (pad n c) >> k none)) (sym h)
    ∙ sym (assoc (putchar (extend c)) (λ _. puts (pad n c)) (λ _. k none))

put_string-puts :
    (str : List ℕ) (k : Place → Cmd Cio (Unit {0}))
    → All Shown str
    → (put_string none str >>= k) ≡ (puts str >> k none)
unfolding put_string
put_string-puts str k h = rw (before_nul-all str h) (assoc (puts str) (λ _. pure none) k)

-- Two strings and what comes behind them.
puts-puts :
    (xs ys : List ℕ) (c : Cmd Cio (Unit {0})) → (puts xs >> (puts ys >> c)) ≡ (puts (xs ++ ys) >> c)
puts-puts xs ys c =
    sym (assoc (puts xs) (λ _. puts ys) (λ _. c)) ∙ ap (λ r. r >> c) (sym (puts-append xs ys))

-- A field is shown as the characters that `padstr` stores.
mypadstr-puts :
    (str : List ℕ) (width : ℕ) (left : Bool) (c : ℕ) (k : Place → Cmd Cio (Unit {0}))
    → extend c ≡ c
    → All Shown str
    → (mypadstr none str width left c >>= k) ≡ (puts (padstr str width left c) >> k none)
unfolding mypadstr padstr
mypadstr-puts str width true c k h shown =
    let extra = filler width (length str) in
    let padded : Place → Cmd Cio Place = λ p. mypad p extra c in
    assoc (put_string none str) padded k
    ∙ put_string-puts str (λ p. padded p >>= k) shown
    ∙ ap (λ r. puts str >> r) (mypad-puts extra c k h)
    ∙ puts-puts str (pad extra c) (k none)
mypadstr-puts str width false c k h shown =
    let extra = filler width (length str) in
    let stringed : Place → Cmd Cio Place = λ p. put_string p str in
    assoc (mypad none extra c) stringed k
    ∙ mypad-puts extra c (λ p. stringed p >>= k) h
    ∙ ap (λ r. puts (pad extra c) >> r) (put_string-puts str k shown)
    ∙ puts-puts (pad extra c) str (k none)
    ∙ ap (λ l. puts (pad extra c ++ l) >> k none) (sym (append-nil str))

-- What is printed is what was stored, if that is a string.
abbrev Prints : Option (List ℕ) → Cmd Cio (Unit {0}) → Type 0
Prints none c = Unit {0}
Prints (some out) c = All Shown out → c ≡ puts out

literal-Prints :
    (ch : ℕ) (stored : Option (List ℕ)) (k : Place → Cmd Cio (Unit {0}))
    → Prints stored (k none)
    → Prints (elim stored [ none ↦ none | some cs ↦ some (ch ∷ cs) ]) (put_literal none ch >>= k)
unfolding put_literal puts
literal-Prints ch none k h = tt
literal-Prints ch (some cs) k h = λ shown.
    assoc (putchar (extend ch)) (λ _. pure none) k ∙ ap (λ r. putchar (extend ch) >> r) (h shown.1)

padstr-inner :
    (str : List ℕ) (width : ℕ) (left : Bool) (c : ℕ)
    → All Shown (padstr str width left c)
    → All Shown str
unfolding padstr
padstr-inner str width true c h = All-left str (pad (filler width (length str)) c) h
padstr-inner str width false c h =
    All-left str [] (All-right (pad (filler width (length str)) c) (str ++ []) h)

field-Prints :
    (str : List ℕ) (width : ℕ) (left : Bool) (c : ℕ) (stored : Option (List ℕ))
    (k : Place → Cmd Cio (Unit {0}))
    → extend c ≡ c
    → Prints stored (k none)
    → Prints
        (elim stored [ none ↦ none | some cs ↦ some (padstr str width left c ++ cs) ])
        (mypadstr none str width left c >>= k)
field-Prints str width left c none k f h = tt
field-Prints str width left c (some cs) k f h = λ shown.
    mypadstr-puts str width left c k f
      (padstr-inner str width left c (All-left (padstr str width left c) cs shown))
    ∙ ap (λ r. puts (padstr str width left c) >> r)
        (h (All-right (padstr str width left c) cs shown))
    ∙ sym (puts-append (padstr str width left c) cs)

-- A format code, with what was converted for it and what comes behind it.
code-Prints :
    (converted_to stored : Option (List ℕ)) (width : ℕ) (left : Bool) (c : ℕ)
    (k : Place → Cmd Cio (Unit {0}))
    → extend c ≡ c
    → Prints stored (k none)
    → Prints
        (elim converted_to [
          | none ↦ none
          | some str ↦ elim stored [ none ↦ none | some cs ↦ some (padstr str width left c ++ cs) ]
        ])
        (elim converted_to [
          | none ↦ halt out_of_fuel
          | some str ↦ mypadstr none str width left c >>= k
        ])
code-Prints none stored width left c k f h = tt
code-Prints (some str) stored width left c k f h = field-Prints str width left c stored k f h

if-Prints :
    (b : Bool) (x y : Option (List ℕ)) (c d : Cmd Cio (Unit {0}))
    → Prints x c
    → Prints y d
    → Prints (if b then x else y) (if b then c else d)
if-Prints true x y c d p q = p
if-Prints false x y c d p q = q

print_items-Prints :
    (m : Memory) (is : List Item) (at : Ptr)
    → All Filled is
    → Prints (format m is at) (print_items m none is at)
unfolding format print_items puts
print_items-Prints m [] at h = λ _. refl
print_items-Prints m (literal ch ∷ rest) at h =
    literal-Prints ch (format m rest at) (λ p. print_items m p rest at)
      (print_items-Prints m rest at h.1)
print_items-Prints m (conversion left c width code ∷ rest) at h =
    let next = if is_code code then at + 4 else at in
    let behind = print_items-Prints m rest next h.1 in
    if-Prints (is_code code) _ (format m rest next) _ (print_items m none rest next)
      (code-Prints (converted m code (load_word m at)) (format m rest next) width left c
        (λ p. print_items m p rest next) h.0 behind)
      behind

do_printf-Prints :
    (m : Memory) (read : Option (List Item)) (at : Ptr)
    → AllFilled read
    → Prints
        (elim read [ none ↦ none | some is ↦ format m is at ])
        (elim read [ none ↦ halt fault | some is ↦ print_items m none is at ])
do_printf-Prints m none at h = tt
do_printf-Prints m (some is) at h = print_items-Prints m is at h

-- When `sprint` stores a string that has no NUL in it for a format and its arguments, `cio_printf` of
-- them does on the screen and the serial line, from every state of the console, what `cio_puts` of that
-- string does.
pub printf-puts :
    (m : Memory) (fmt : List ℕ) (at : Ptr) (out : List ℕ)
    → sprint m fmt at ≡ some out
    → All Shown out
    → printf m fmt at ≡ puts out
unfolding sprint printf do_printf
printf-puts m fmt at out stored shown =
    subst (λ o. Prints o (printf m fmt at)) stored
      (do_printf-Prints m (items ordinary fmt) at (items-Filled ordinary fmt tt)) shown
