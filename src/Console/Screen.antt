-- ===== src/Console/Screen.antt =====
-- What the loops of kernel/cio.c over the video memory write.
use os_team.Base.{
  ℕ, zero, suc, ◌+◌, ◌-◌, ◌*◌, ◌%◌, ◌/◌, ◌≤◌, ◌<◌, ◌≡◌, refl, ◌∙◌, Bool, true, false, ltb, leb,
  ◌&&◌, ◌||◌, if◌then◌else◌, inl, inr, ap, Bool-cases, arith,
}
use os_team.Base.Chain.{update}
use os_team.Text.Memory.{Memory, memcpy}
use os_team.Text.Memory.Copy.{memcpy-copied}
use os_team.Console.{
  blank, move, blank_lines, move_lines, video_addr, screen_x_size, space, vga_default,
}

-- The address is among the `n` from `base` on.
abbrev pub among : (base n a : ℕ) → Bool
among base n a = leb base a && ltb a (base + n)

-- The address is that of a place in these columns and lines.
abbrev pub in_box : (x nchars l n a : ℕ) → Bool
in_box x nchars l n a = among x nchars (a % screen_x_size) && among l n (a / screen_x_size)

pub blank-fills :
    (n to : ℕ) (m : Memory) (a : ℕ)
    → blank n to m a ≡ (if among to n a then space + vga_default else m a)
unfolding blank
blank-fills zero to m a = ground arith
blank-fills (suc n) to m a =
    ground (arith, blank-fills n (to + 1) (update m to (space + vga_default)) a)

-- The loop over a line is that of `memcpy`.
move-memcpy : (n to from : ℕ) (m : Memory) → move n to from m ≡ memcpy to from n m
unfolding move memcpy
move-memcpy zero to from m = refl
move-memcpy (suc n) to from m = move-memcpy n (to + 1) (from + 1) (update m to (m from))

move-moves :
    (n to from : ℕ) (m : Memory) (a : ℕ)
    → to ≤ from
    → move n to from m a ≡ (if among to n a then m (from + (a - to)) else m a)
move-moves n to from m a h =
    ap (λ (f : Memory). f a) (move-memcpy n to from m) ∙ memcpy-copied to from n m a (inl h)

row_or_below :
    (x nchars l n a : ℕ)
    → x + nchars ≤ screen_x_size
    → in_box x nchars l (suc n) a ≡ (among (video_addr x l) nchars a || in_box x nchars (l + 1) n a)
row_or_below x nchars l n a fits = ground arith

row-above :
    (x nchars l n a : ℕ)
    → x + nchars ≤ screen_x_size
    → among (video_addr x l) nchars a ≡ true
    → in_box x nchars (l + 1) n a ≡ false
row-above x nchars l n a fits h = ground arith

-- Blank lines.
pub blank_lines-fills :
    (n nchars x l : ℕ) (m : Memory) (a : ℕ)
    → x + nchars ≤ screen_x_size
    → blank_lines n nchars x l m a ≡ (if in_box x nchars l n a then space + vga_default else m a)
unfolding blank_lines
blank_lines-fills zero nchars x l m a fits = ground arith
blank_lines-fills (suc n) nchars x l m a fits =
    blank_lines-fills n nchars x (l + 1) (blank nchars (video_addr x l) m) a fits
    ∙ ground (arith, blank-fills nchars (video_addr x l) m a, row_or_below x nchars l n a fits)

-- Each line gets what the line that many lines below held.
pub move_lines-moves :
    (n nchars x l lines : ℕ) (m : Memory) (a : ℕ)
    → x + nchars ≤ screen_x_size
    → 0 < lines
    → move_lines n nchars x l lines m a
      ≡ (if in_box x nchars l n a then m (a + lines * screen_x_size) else m a)
unfolding move_lines
move_lines-moves zero nchars x l lines m a fits some_lines = ground arith
move_lines-moves (suc n) nchars x l lines m a fits some_lines =
    let to = video_addr x l in
    let from = video_addr x (l + lines) in
    let m1 = move nchars to from m in
    let here : m1 a ≡ (if among to nchars a then m (from + (a - to)) else m a) =
      move-moves nchars to from m a (omega arith) in
    let there : m1 (a + lines * screen_x_size) ≡ (
        if among to nchars (a + lines * screen_x_size)
        then m (from + (a + lines * screen_x_size - to))
        else m (a + lines * screen_x_size)) =
      move-moves nchars to from m (a + lines * screen_x_size) (omega arith) in
    move_lines-moves n nchars x (l + 1) lines m1 a fits some_lines
    ∙ elim (Bool-cases (in_box x nchars (l + 1) n a)) [
      | inl below ↦
          let past : among to nchars (a + lines * screen_x_size) ≡ false = ground arith in
          let whole : in_box x nchars l (suc n) a ≡ true = ground arith in
          rw (below, whole) (there ∙ rw past)
      | inr not_below ↦ elim (Bool-cases (among to nchars a)) [
        | inl row ↦
            let whole : in_box x nchars l (suc n) a ≡ true =
              row_or_below x nchars l n a fits ∙ rw row in
            let same : from + (a - to) ≡ a + lines * screen_x_size = ground arith in
            rw (not_below, whole) (here ∙ rw (row, same))
        | inr apart ↦
            let whole : in_box x nchars l (suc n) a ≡ false =
              row_or_below x nchars l n a fits ∙ rw (apart, not_below) in
            rw (not_below, whole) (here ∙ rw apart)
      ]
    ]
