-- ===== src/Tests/Console.antt =====
-- The console: a region of the screen, with the cursor below it, and a keyboard buffer that is full but
-- for one cell.
use os_team.Text.Memory.{Memory}
use os_team.Base.{◌⊎◌, ℕ, List, some, ◌+◌, ◌%◌, ◌≡◌, refl, arith, false, [], ◌∷◌, ok, Returns}
use os_team.Text.Format.{sprint, items, read_char, format, is_code, converted, padstr, pad}
use os_team.Text.Radix.{cvthex, hex_rounds}
use os_team.Text.Words.{load_word, store_word}
use os_team.Console.Printf.{printf}
use os_team.Console.Printf.Printed.{Shown, printf-puts}
use os_team.Base.Chain.{All}
use os_team.Console.{puts, Cio, setscroll, scroll, putchar, write, setcursor, scroll_down}
use os_team.Console.Keyboard.{store_char}
use os_team.Console.Typed.{Typed, store_char-Typed}
use os_team.Console.Cursor.{OnScreen, Bounded, setscroll-Bounded}
use os_team.Console.Scroll.{scrolled, scroll-scrolled}
use os_team.Console.Region.{Within}
use os_team.Console.Putchar.{Placed, shown, putchar-shown, write-Within}
use os_team.Tests.Sio.{sio0}

abbrev pub cio0 : Cio
cio0 = record {
  video = λ a. a;
  scroll_min_x = 2;
  scroll_min_y = 7;
  scroll_max_x = 70;
  scroll_max_y = 20;
  curr_x = 70;
  curr_y = 21;
  min_x = 0;
  min_y = 0;
  max_x = 79;
  max_y = 24;
  dup_to_sio = false;
  dup2sio_bak = false;
  cursor = 0;
  shift = false;
  ctrl = false;
  input_buffer = λ i. (97 + i) % 256;
  next_char = 199;
  next_space = 1;
  sio = sio0;
}

screen0 : OnScreen cio0
screen0 = record {
  wide = omega arith;
  high = omega arith;
  columns = omega arith;
  lines = omega arith;
}

bounded0 : Bounded cio0
bounded0 = record {
  screen = screen0;
  left = omega arith;
  width = omega arith;
  right = omega arith;
  top = omega arith;
  height = omega arith;
  bottom = omega arith;
  from_x = omega arith;
  to_x = omega arith;
  from_y = omega arith;
  to_y = omega arith;
}

setscroll-Bounded_example :
    Bounded (setscroll 90 3 1 30 cio0)
    × ((setscroll 90 3 1 30 cio0).curr_x ≡ (setscroll 90 3 1 30 cio0).scroll_min_x)
    × ((setscroll 90 3 1 30 cio0).curr_y ≡ (setscroll 90 3 1 30 cio0).scroll_min_y)
setscroll-Bounded_example = setscroll-Bounded 90 3 1 30 cio0 screen0

-- The first place of the region shows what the place below showed.
scroll-scrolled_example : (scroll 1 cio0).video 562 ≡ scrolled 1 cio0 562
scroll-scrolled_example = scroll-scrolled 1 cio0 562 bounded0 (omega arith)

putchar-shown_example : putchar 65 cio0 ≡ ok tt (setcursor (shown 65 (scroll_down cio0)))
putchar-shown_example = putchar-shown 65 cio0 refl bounded0

write-Within_example :
    Returns (λ _ t. Within cio0 t × (◌≡◌ {A = ℕ} 5 0 ⊎ Placed t)) (write (λ a. a) 8 5 cio0)
write-Within_example = write-Within (λ a. a) 8 5 cio0 refl bounded0

typed0 : Typed cio0 (40 ∷ 97 ∷ [])
typed0 = record { next = omega arith; last = refl; few = omega arith; cells = (refl, (refl, tt)) }

store_char-Typed_example : Typed (store_char 104 cio0) (40 ∷ 97 ∷ 104 ∷ [])
store_char-Typed_example = store_char-Typed 104 cio0 (40 ∷ 97 ∷ []) typed0

-- The argument 42 in memory, for the format `v=%05x`.
abbrev args : Memory
args = store_word 100 42 (λ _. 0)

abbrev fmt : List ℕ
fmt = 118 ∷ 61 ∷ 37 ∷ 48 ∷ 53 ∷ 120 ∷ []

abbrev out : List ℕ
out = 118 ∷ 61 ∷ 48 ∷ 48 ∷ 48 ∷ 50 ∷ 65 ∷ []

stored : sprint args fmt 100 ≡ some out
unfolding sprint items read_char format is_code converted padstr pad cvthex hex_rounds load_word
    store_word
stored = refl

out-Shown : All Shown out
out-Shown = (
  omega arith,
  (omega arith, (omega arith, (omega arith, (omega arith, (omega arith, (omega arith, tt)))))),
)

printf-puts_example : printf args fmt 100 ≡ puts out
printf-puts_example = printf-puts args fmt 100 out stored out-Shown
