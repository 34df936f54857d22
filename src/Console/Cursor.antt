-- ===== src/Console/Cursor.antt =====
-- The cursor of kernel/cio.c in the scrolling region: setting the region and moving the cursor.
use os_team.Base.{ℕ, ◌+◌, ◌≤◌, ◌<◌, ◌≡◌, refl, Bool, add32, arith}
use os_team.Console.{Cio, bound, setcursor, setscroll, moveto, screen_x_size, screen_y_size}

-- The limits of the screen are those of the video memory.
pub record OnScreen (s : Cio) : Type 0 where
  pub wide : s.min_x ≤ s.max_x
  pub high : s.min_y ≤ s.max_y
  pub columns : s.max_x < screen_x_size
  pub lines : s.max_y < screen_y_size

-- The scrolling region is on the screen, and the cursor is in it or at the start of the line below.
pub record Bounded (s : Cio) : Type 0 where
  pub screen : OnScreen s
  pub left : s.min_x ≤ s.scroll_min_x
  pub width : s.scroll_min_x ≤ s.scroll_max_x
  pub right : s.scroll_max_x ≤ s.max_x
  pub top : s.min_y ≤ s.scroll_min_y
  pub height : s.scroll_min_y ≤ s.scroll_max_y
  pub bottom : s.scroll_max_y ≤ s.max_y
  pub from_x : s.scroll_min_x ≤ s.curr_x
  pub to_x : s.curr_x ≤ s.scroll_max_x
  pub from_y : s.scroll_min_y ≤ s.curr_y
  pub to_y : s.curr_y ≤ s.scroll_max_y + 1

-- The value is between the bounds when these are in order.
bound-Between :
    (min value max : ℕ) → min ≤ max → (min ≤ bound min value max) × (bound min value max ≤ max)
unfolding bound
bound-Between min value max h = (ground arith, ground arith)

-- Whatever its arguments, `cio_setscroll` makes a scrolling region on the screen, with the cursor at
-- its upper left corner.
pub setscroll-Bounded :
    (x y x' y' : ℕ) (s : Cio)
    → OnScreen s
    → Bounded (setscroll x y x' y' s)
      × ((setscroll x y x' y' s).curr_x ≡ (setscroll x y x' y' s).scroll_min_x)
      × ((setscroll x y x' y' s).curr_y ≡ (setscroll x y x' y' s).scroll_min_y)
unfolding setscroll setcursor
setscroll-Bounded x y x' y' s on =
    let left = bound-Between s.min_x x s.max_x on.wide in
    let top = bound-Between s.min_y y s.max_y on.high in
    let right = bound-Between (bound s.min_x x s.max_x) x' s.max_x (left.1) in
    let bottom = bound-Between (bound s.min_y y s.max_y) y' s.max_y (top.1) in
    (
      record {
        screen = record { wide = on.wide; high = on.high; columns = on.columns; lines = on.lines };
        left = left.0;
        width = right.0;
        right = right.1;
        top = top.0;
        height = bottom.0;
        bottom = bottom.1;
        from_x = omega arith;
        to_x = right.0;
        from_y = omega arith;
        to_y = omega (arith, bottom.0);
      },
      refl,
      refl,
    )

-- The state with another screen and another place of the cursor.
abbrev pub redrawn : Cio → (ℕ → ℕ) → (x y cursor : ℕ) → (bak : Bool) → Cio
redrawn s video x y cursor bak = record s {
  video = video;
  curr_x = x;
  curr_y = y;
  cursor = cursor;
  dup2sio_bak = bak;
}

pub redrawn-Bounded :
    (s : Cio) (video : ℕ → ℕ) (x y cursor : ℕ) (bak : Bool)
    → Bounded s
    → s.scroll_min_x ≤ x
    → x ≤ s.scroll_max_x
    → s.scroll_min_y ≤ y
    → y ≤ s.scroll_max_y + 1
    → Bounded (redrawn s video x y cursor bak)
redrawn-Bounded s video x y cursor bak b left right top bottom = record {
  screen = record {
    wide = b.screen.wide;
    high = b.screen.high;
    columns = b.screen.columns;
    lines = b.screen.lines;
  };
  left = b.left;
  width = b.width;
  right = b.right;
  top = b.top;
  height = b.height;
  bottom = b.bottom;
  from_x = left;
  to_x = right;
  from_y = top;
  to_y = bottom;
}

-- `cio_moveto` keeps the cursor in the scrolling region, whatever its arguments.
pub moveto-Bounded : (x y : ℕ) (s : Cio) → Bounded s → Bounded (moveto x y s)
unfolding moveto setcursor
moveto-Bounded x y s b =
    let across = bound-Between s.scroll_min_x (add32 x s.scroll_min_x) s.scroll_max_x b.width in
    let down = bound-Between s.scroll_min_y (add32 y s.scroll_min_y) s.scroll_max_y b.height in
    redrawn-Bounded s s.video _ _ _ s.dup2sio_bak b (across.0) (across.1) (down.0)
      (omega (arith, down.1))
