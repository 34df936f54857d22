-- ===== src/Console.antt =====
-- kernel/cio.c, the console: the screen with its scrolling region. The keyboard is in Console.Keyboard.
pub mod Keyboard
pub mod Typed
pub mod Region
pub mod Printf
pub mod Putchar
pub mod Scroll
pub mod Cursor
pub mod Screen
use os_team.Base.{
  ℕ, zero, suc, ◌+◌, ◌-◌, ◌*◌, ◌/◌, ◌%◌, ◌^◌, Bool, true, false, not, ◌&&◌, ◌||◌, ltb, leb, ◌==◌,
  if◌then◌else◌, add32, Option, none, some, List, [], ◌∷◌, get_elem?, Cmd, pure, get, put, embed,
  ◌>>=◌, ◌>>◌,
}
use os_team.Base.Chain.{Ptr, update}
use os_team.Text.Radix.{hex_digit}
use os_team.Text.Memory.{Memory}
use os_team.Text.Decimal.{hexdigits}
use os_team.Sio
use os_team.Sio.{Sio}

-- The globals of the module. The video memory is a word for each place of the screen, in rows; `cursor`
-- is the location that the controller shows. The two flags of the duplication are 0 or 1.
pub record Cio : Type 0 where
  pub video : Memory
  pub scroll_min_x : ℕ
  pub scroll_min_y : ℕ
  pub scroll_max_x : ℕ
  pub scroll_max_y : ℕ
  pub curr_x : ℕ
  pub curr_y : ℕ
  pub min_x : ℕ
  pub min_y : ℕ
  pub max_x : ℕ
  pub max_y : ℕ
  pub dup_to_sio : Bool
  pub dup2sio_bak : Bool
  pub cursor : ℕ
  pub shift : Bool
  pub ctrl : Bool
  pub input_buffer : Memory
  pub next_char : ℕ
  pub next_space : ℕ
  pub sio : Sio

abbrev pub screen_x_size : ℕ
screen_x_size = 80

abbrev pub screen_y_size : ℕ
screen_y_size = 25

-- `VGA_DEFAULT` in a build with `VIDEO_BW`, black on white; the default is joined by `|` to a byte.
abbrev pub vga_default : ℕ
vga_default = 28672

abbrev pub space : ℕ
space = 32

-- `VIDEO_ADDR`, as an index of the video memory.
abbrev pub video_addr : (x y : ℕ) → ℕ
video_addr x y = y * screen_x_size + x

-- `bound` of lib/bound.c
unfoldable pub bound : (min value max : ℕ) → ℕ
bound min value max = let v = if ltb value min then min else value in if ltb max v then max else v

-- `setcursor`
unfoldable pub setcursor : Cio → Cio
setcursor s =
    let y = if ltb s.scroll_max_y s.curr_y then s.scroll_max_y else s.curr_y in
    record s { cursor = (y * screen_x_size + s.curr_x) % 2 ^ 32 % 2 ^ 16 }

abbrev pub in_sio : {A : Type 0} → Cmd Sio A → Cmd Cio A
in_sio m s = embed (λ c t. record c { sio = t }) s (m s.sio)

abbrev pub is_print : ℕ → Bool
is_print c = leb space c && ltb c 127 || (c == 10 || (c == 9))

-- What `sprint` leaves in its buffer for `"\\x%02x"` and a byte.
abbrev escape : ℕ → Memory
escape ch a =
    if a == 0
    then 92
    else if a == 1
    then 120
    else if a == 2
    then hex_digit (ch / 16)
    else if a == 3
    then hex_digit (ch % 16)
    else 0

-- The duplication of a character to the serial line.
unfoldable pub duplicate : (ch : ℕ) → Cmd Cio (Unit {0})
duplicate ch =
    if is_print ch
    then in_sio (Sio.writec ch)
    else (in_sio (Sio.write (escape ch) 0 4) >>= λ _. pure tt)

-- The word that a character stands for on the screen.
abbrev pub cell : ℕ → ℕ
cell c = let low = c % 2 ^ 16 in if ltb 255 low then low else low + vga_default

-- `putchar_at`
unfoldable pub put_at : (x y c : ℕ) → Cmd Cio (Unit {0})
put_at x y c s =
    if leb x s.max_x && leb y s.max_y
    then (if not s.dup_to_sio
            || (ltb x s.scroll_min_x
                || (ltb s.scroll_max_x x || (ltb y s.scroll_min_y || ltb s.scroll_max_y y)))
          then pure tt
          else duplicate (c % 256))
        (record s { video = update s.video (video_addr x y) (cell c) })
    else pure tt s

-- `cio_setscroll`
unfoldable pub setscroll : (s_min_x s_min_y s_max_x s_max_y : ℕ) → Cio → Cio
setscroll s_min_x s_min_y s_max_x s_max_y s =
    let left = bound s.min_x s_min_x s.max_x in
    let top = bound s.min_y s_min_y s.max_y in
    setcursor (record s {
      scroll_min_x = left;
      scroll_min_y = top;
      scroll_max_x = bound left s_max_x s.max_x;
      scroll_max_y = bound top s_max_y s.max_y;
      curr_x = left;
      curr_y = top;
    })

-- `cio_moveto`
unfoldable pub moveto : (x y : ℕ) → Cio → Cio
moveto x y s = setcursor (record s {
  curr_x = bound s.scroll_min_x (add32 x s.scroll_min_x) s.scroll_max_x;
  curr_y = bound s.scroll_min_y (add32 y s.scroll_min_y) s.scroll_max_y;
})

-- `n` blanks from an index of the video memory on.
unfoldable pub blank : (n to : ℕ) → Memory → Memory
blank zero to m = m
blank (suc n) to m = blank n (to + 1) (update m to (space + vga_default))

-- `n` words moved from one place to another, from the first on.
unfoldable pub move : (n to from : ℕ) → Memory → Memory
move zero to from m = m
move (suc n) to from m = move n (to + 1) (from + 1) (update m to (m from))

-- `n` lines of `nchars` blanks, from the line `l` on.
unfoldable pub blank_lines : (n nchars x l : ℕ) → Memory → Memory
blank_lines zero nchars x l m = m
blank_lines (suc n) nchars x l m = blank_lines n nchars x (l + 1) (blank nchars (video_addr x l) m)

-- `n` lines moved up by `lines`.
unfoldable pub move_lines : (n nchars x l lines : ℕ) → Memory → Memory
move_lines zero nchars x l lines m = m
move_lines (suc n) nchars x l lines m =
    move_lines n nchars x (l + 1) lines (move nchars (video_addr x l) (video_addr x (l + lines)) m)

-- The number of columns and of lines of the scrolling region.
abbrev pub columns : Cio → ℕ
columns s = s.scroll_max_x + 1 - s.scroll_min_x

abbrev pub rows : Cio → ℕ
rows s = s.scroll_max_y + 1 - s.scroll_min_y

-- `cio_clearscroll`
unfoldable pub clearscroll : Cio → Cio
clearscroll s = record s {
  video = blank_lines (rows s) (columns s) s.scroll_min_x s.scroll_min_y s.video;
}

-- `cio_clearscreen`
unfoldable pub clearscreen : Cio → Cio
clearscreen s = record s {
  video =
      blank ((s.max_y - s.min_y + 1) * (s.max_x - s.min_x + 1)) (video_addr s.min_x s.min_y)
        s.video;
}

-- `cio_scroll`
unfoldable pub scroll : (lines : ℕ) → Cio → Cio
scroll lines s =
    if ltb (s.scroll_max_y - s.scroll_min_y) lines
    then setcursor (record (clearscroll s) { curr_x = s.scroll_min_x; curr_y = s.scroll_min_y })
    else (let kept = rows s - lines in
        let up = move_lines kept (columns s) s.scroll_min_x s.scroll_min_y lines s.video in
        record s {
          video = blank_lines lines (columns s) s.scroll_min_x (s.scroll_min_y + kept) up;
        })

-- The first statement of `cio_putchar`.
unfoldable pub scroll_down : Cio → Cio
scroll_down s =
    if ltb s.scroll_max_y s.curr_y
    then record (scroll (s.curr_y - s.scroll_max_y) s) { curr_y = s.scroll_max_y }
    else s

-- The loop that erases to the end of the line, with the rounds left.
unfoldable pub erase : (rounds : ℕ) → Cmd Cio (Unit {0})
erase zero = pure tt
erase (suc rounds) = do
  s ← get
  put_at s.curr_x s.curr_y space
  t ← get
  put (record t { curr_x = t.curr_x + 1 })
  erase rounds

-- The case of a newline of `cio_putchar`; its echo of the newline follows a test of the flag that it
-- has just cleared.
unfoldable pub new_line : Cmd Cio (Unit {0})
new_line = do
  s ← get
  put (record s { dup2sio_bak = s.dup_to_sio; dup_to_sio = false })
  erase (s.scroll_max_x + 1 - s.curr_x)
  t ← get
  if t.dup_to_sio then in_sio (Sio.writec 10) else put (record t { dup_to_sio = t.dup2sio_bak })
  u ← get
  put (record u { curr_x = u.scroll_min_x; curr_y = u.curr_y + 1 })

-- The default case of `cio_putchar`.
unfoldable pub show_char : (c : ℕ) → Cmd Cio (Unit {0})
show_char c = do
  s ← get
  put_at s.curr_x s.curr_y c
  t ← get
  put (
      if ltb t.scroll_max_x (t.curr_x + 1)
      then record t { curr_x = t.scroll_min_x; curr_y = t.curr_y + 1 }
      else record t { curr_x = t.curr_x + 1 })

-- A `char` as an `unsigned int`.
abbrev pub extend : ℕ → ℕ
extend b = if ltb b 128 then b else b + (2 ^ 32 - 256)

-- `n` blanks by `putchar_at`, from a column on.
unfoldable pub put_blanks : (n x y : ℕ) → Cmd Cio (Unit {0})
put_blanks zero x y = pure tt
put_blanks (suc n) x y = put_at x y space >> put_blanks n (x + 1) y

-- The last column that a newline written at `x` erases: not across the border of the region.
abbrev pub limit : (x : ℕ) → Cio → ℕ
limit x s =
    if ltb s.scroll_max_x x
    then s.max_x
    else if leb s.scroll_min_x x
    then s.scroll_max_x
    else s.scroll_min_x - 1

-- `cio_putchar_at`; the echo of the newline is as in `new_line`.
unfoldable pub putchar_at : (x y c : ℕ) → Cmd Cio (Unit {0})
putchar_at x y c =
    if c % 128 == 10
    then (do
      s ← get
      put (record s { dup2sio_bak = s.dup_to_sio; dup_to_sio = false })
      put_blanks (limit x s + 1 - x) x y
      t ← get
      if t.dup_to_sio
          then in_sio (Sio.writec 10)
          else put (record t { dup_to_sio = t.dup2sio_bak }))
    else put_at x y c

-- `cio_puts_at`, of the characters in front of the NUL.
unfoldable pub puts_at : (x y : ℕ) → List ℕ → Cmd Cio (Unit {0})
puts_at x y [] = pure tt
puts_at x y (c ∷ cs) = do
  s ← get
  if leb x s.max_x then putchar_at x y (extend c) >> puts_at (x + 1) y cs else pure tt

-- `cio_putchar`
unfoldable pub putchar : (c : ℕ) → Cmd Cio (Unit {0})
putchar c = do
  s ← get
  put (scroll_down s)
  if c % 256 == 10
      then new_line
      else if c % 256 == 13
      then (λ t. put (record t { curr_x = t.scroll_min_x }) t)
      else show_char c
  u ← get
  put (setcursor u)

-- `cio_write`, with the characters of the buffer that are left.
unfoldable pub write : Memory → (buf : Ptr) (length : ℕ) → Cmd Cio (Unit {0})
write mem buf zero = pure tt
write mem buf (suc length) = putchar (extend (mem buf)) >> write mem (buf + 1) length

-- `cio_puts`, of the characters in front of the NUL.
unfoldable pub puts : List ℕ → Cmd Cio (Unit {0})
puts [] = pure tt
puts (c ∷ cs) = putchar (extend c) >> puts cs

-- `cio_opt_set` and `cio_opt_clear`; `CIO_OPT_DUP` is 0, and `none` is -1.
unfoldable pub opt_set : (opt : ℕ) → Cmd Cio (Option Bool)
opt_set opt s =
    if opt == 0 then pure (some s.dup_to_sio) (record s { dup_to_sio = true }) else pure none s

unfoldable pub opt_clear : (opt : ℕ) → Cmd Cio (Option Bool)
opt_clear opt s =
    if opt == 0 then pure (some s.dup_to_sio) (record s { dup_to_sio = false }) else pure none s
