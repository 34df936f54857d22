-- ===== src/Console/Scroll.antt =====
-- cio_scroll of kernel/cio.c: what the screen shows afterwards.
use os_team.Base.{
  ℕ, ◌+◌, ◌-◌, ◌*◌, ◌/◌, ◌≤◌, ◌<◌, ◌≡◌, ◌∙◌, inl, inr, Bool, ltb, leb, if◌then◌else◌, Bool-cases,
  arith,
}
use os_team.Text.Memory.{Memory}
use os_team.Console.{
  Cio, scroll, clearscroll, setcursor, columns, rows, blank_lines, move_lines, screen_x_size, space,
  vga_default,
}
use os_team.Console.Cursor.{Bounded}
use os_team.Console.Screen.{in_box, blank_lines-fills, move_lines-moves}

-- The address is that of a place in the scrolling region.
abbrev pub in_region : Cio → ℕ → Bool
in_region s a = in_box s.scroll_min_x (columns s) s.scroll_min_y (rows s) a

-- The video memory in which the region has moved up.
abbrev pub scrolled : (lines : ℕ) → Cio → Memory
scrolled lines s a =
    if in_region s a
    then if leb (a / screen_x_size + lines) s.scroll_max_y
      then s.video (a + lines * screen_x_size)
      else space + vga_default
    else s.video a

cleared :
    (lines : ℕ) (s : Cio) (a : ℕ)
    → Bounded s
    → s.scroll_max_y - s.scroll_min_y < lines
    → (clearscroll s).video a ≡ scrolled lines s a
unfolding clearscroll
cleared lines s a b many =
    blank_lines-fills (rows s) (columns s) s.scroll_min_x s.scroll_min_y s.video a
      (omega (arith, b.width, b.right, b.screen.columns))
    ∙ ground (arith, b.height)

moved :
    (lines : ℕ) (s : Cio) (a : ℕ)
    → Bounded s
    → 0 < lines
    → lines ≤ s.scroll_max_y - s.scroll_min_y
    → blank_lines lines
        (columns s)
        s.scroll_min_x
        (s.scroll_min_y + (rows s - lines))
        (move_lines (rows s - lines) (columns s) s.scroll_min_x s.scroll_min_y lines s.video)
        a
      ≡ scrolled lines s a
moved lines s a b some_lines few =
    let fits : s.scroll_min_x + columns s ≤ screen_x_size =
      omega (arith, b.width, b.right, b.screen.columns) in
    let kept = rows s - lines in
    let up = move_lines kept (columns s) s.scroll_min_x s.scroll_min_y lines s.video in
    blank_lines-fills lines (columns s) s.scroll_min_x (s.scroll_min_y + kept) up a fits
    ∙ ground (
      arith,
      move_lines-moves kept (columns s) s.scroll_min_x s.scroll_min_y lines s.video a fits
          some_lines,
      b.height,
    )

-- When the scrolling region is on the screen, `cio_scroll` by one line or more moves every line of the
-- region up, fills the lines that come in with blanks, and changes nothing outside of the region.
pub scroll-scrolled :
    (lines : ℕ) (s : Cio) (a : ℕ)
    → Bounded s
    → 0 < lines
    → (scroll lines s).video a ≡ scrolled lines s a
unfolding scroll setcursor
scroll-scrolled lines s a b some_lines =
    elim (Bool-cases (ltb (s.scroll_max_y - s.scroll_min_y) lines)) [
      | inl many ↦ simp many (cleared lines s a b (ground arith))
      | inr few ↦ simp few (moved lines s a b some_lines (ground arith))
    ]
