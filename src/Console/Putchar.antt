-- ===== src/Console/Putchar.antt =====
-- cio_putchar and cio_write of kernel/cio.c, while the duplication to the serial line is off.
use os_team.Base.{
  ℕ, zero, suc, ◌+◌, ◌-◌, ◌%◌, ◌≤◌, ◌≡◌, ◌⊎◌, refl, ◌∙◌, ap, inl, inr, true, false, ltb, leb, ◌==◌,
  ◌&&◌, if◌then◌else◌, Bool-cases, arith, ok, Returns, returns, bind, mono,
}
use os_team.Base.Chain.{Ptr, update}
use os_team.Text.Memory.{Memory}
use os_team.Console.{
  Cio, put_at, erase, new_line, show_char, scroll_down, setcursor, putchar, write, extend, blank,
  cell, video_addr, space,
}
use os_team.Console.Cursor.{Bounded, redrawn-Bounded}
use os_team.Console.Screen.{blank-fills}
use os_team.Console.Scroll.{in_region}
use os_team.Console.Region.{
  Within, Within-refl, Within-trans, scroll_down-Within, scroll_down-inside,
}

put_at-off :
    (x y c : ℕ) (s : Cio)
    → s.dup_to_sio ≡ false
    → x ≤ s.max_x
    → y ≤ s.max_y
    → put_at x y c s ≡ ok tt (record s { video = update s.video (video_addr x y) (cell c) })
unfolding put_at
put_at-off x y c s off wide high =
    let on_screen : (leb x s.max_x && leb y s.max_y) ≡ true = ground arith in
    simp (on_screen, off) refl

erase-blank :
    (n : ℕ) (s : Cio)
    → s.dup_to_sio ≡ false
    → s.curr_x + n ≤ s.max_x + 1
    → s.curr_y ≤ s.max_y
    → erase n s
      ≡ ok tt (record s {
        video = blank n (video_addr s.curr_x s.curr_y) s.video;
        curr_x = s.curr_x + n;
      })
unfolding erase blank
erase-blank zero s off wide high =
    let same : s.curr_x ≡ s.curr_x + 0 = omega arith in
    ap (λ x. ok tt (record s { curr_x = x })) same
erase-blank (suc n) s off wide high =
    let video1 = update s.video (video_addr s.curr_x s.curr_y) (cell space) in
    let s1 : Cio = record s { video = video1; curr_x = s.curr_x + 1 } in
    let next : video_addr (s.curr_x + 1) s.curr_y ≡ video_addr s.curr_x s.curr_y + 1 =
      omega arith in
    let count : s.curr_x + 1 + n ≡ s.curr_x + suc n = omega arith in
    simp (put_at-off s.curr_x s.curr_y space s off (omega arith) high) (
      erase-blank n s1 off (omega arith) high
      ∙ ap (λ (to : ℕ). ok tt (record s { video = blank n to video1; curr_x = s.curr_x + 1 + n }))
          next
      ∙ ap
          (λ (x : ℕ).
            ok tt
              (record s { video = blank n (video_addr s.curr_x s.curr_y + 1) video1; curr_x = x }))
          count)

-- The state after a character is shown at the cursor, which is in the region.
abbrev pub shown : (c : ℕ) → Cio → Cio
shown c s =
    if c % 256 == 10
    then record s {
      video = blank (s.scroll_max_x + 1 - s.curr_x) (video_addr s.curr_x s.curr_y) s.video;
      dup2sio_bak = s.dup_to_sio;
      curr_x = s.scroll_min_x;
      curr_y = s.curr_y + 1;
    }
    else if c % 256 == 13
    then record s { curr_x = s.scroll_min_x }
    else record s {
      video = update s.video (video_addr s.curr_x s.curr_y) (cell c);
      curr_x = if ltb s.scroll_max_x (s.curr_x + 1) then s.scroll_min_x else s.curr_x + 1;
      curr_y = if ltb s.scroll_max_x (s.curr_x + 1) then s.curr_y + 1 else s.curr_y;
    }

new_line-shown :
    (s : Cio)
    → s.dup_to_sio ≡ false
    → Bounded s
    → s.curr_y ≤ s.scroll_max_y
    → new_line s ≡ ok tt (shown 10 s)
unfolding new_line
new_line-shown s off b inside =
    let s0 : Cio = record s { dup2sio_bak = s.dup_to_sio; dup_to_sio = false } in
    let rounds = s.scroll_max_x + 1 - s.curr_x in
    simp (erase-blank rounds s0 refl (omega (arith, b.to_x, b.right)) (omega (arith, b.bottom)))
      refl

show_char-shown :
    (c : ℕ) (s : Cio)
    → s.dup_to_sio ≡ false
    → Bounded s
    → s.curr_y ≤ s.scroll_max_y
    → (c % 256 == 10) ≡ false
    → (c % 256 == 13) ≡ false
    → show_char c s ≡ ok tt (shown c s)
unfolding show_char
show_char-shown c s off b inside nl cr =
    simp
      (
        put_at-off s.curr_x s.curr_y c s off (omega (arith, b.to_x, b.right))
            (omega (arith, b.bottom)),
        nl,
        cr,
      )
      (elim (Bool-cases (ltb s.scroll_max_x (s.curr_x + 1))) [
        | inl edge ↦ simp edge refl
        | inr more ↦ simp more refl
      ])

module _ (s : Cio) (b : Bounded s) (inside : s.curr_y ≤ s.scroll_max_y) where
  cursor_place : in_region s (video_addr s.curr_x s.curr_y) ≡ true
  cursor_place = ground (arith, b.from_x, b.to_x, b.from_y, b.right, b.screen.columns)

  shown-Within : (c : ℕ) → Within s (setcursor (shown c s))
  unfolding setcursor
  shown-Within c = elim (Bool-cases (c % 256 == 10)) [
    | inl nl ↦ simp nl (record {
      bounded =
          redrawn-Bounded s _ s.scroll_min_x (s.curr_y + 1) _ s.dup_to_sio b (omega arith) b.width
            (omega (arith, b.from_y)) (omega arith);
      same = refl;
      outside = λ a out.
          blank-fills (s.scroll_max_x + 1 - s.curr_x) (video_addr s.curr_x s.curr_y) s.video a
          ∙ ground (arith, b.from_x, b.to_x, b.from_y, b.right, b.screen.columns);
    })
    | inr not_nl ↦ elim (Bool-cases (c % 256 == 13)) [
      | inl cr ↦
          simp (not_nl, cr)
            (record {
              bounded =
                  redrawn-Bounded s s.video s.scroll_min_x s.curr_y _ s.dup2sio_bak b (omega arith)
                    b.width b.from_y b.to_y;
              same = refl;
              outside = λ a out. refl;
            })
      | inr other ↦
          simp (not_nl, other)
            (record {
              bounded =
                  redrawn-Bounded s _ _ _ _ s.dup2sio_bak b (ground (arith, b.from_x))
                    (ground (arith, b.width)) (ground (arith, b.from_y)) (ground (arith, b.to_y));
              same = refl;
              outside = λ a out. ground (arith, cursor_place);
            })
    ]
  ]

-- The cursor is in the region, or at the start of the line below it.
abbrev pub Placed : Cio → Type 0
Placed s = (s.curr_y ≤ s.scroll_max_y) ⊎ (s.curr_x ≡ s.scroll_min_x)

shown-Placed : (s : Cio) → s.curr_y ≤ s.scroll_max_y → (c : ℕ) → Placed (setcursor (shown c s))
unfolding setcursor
shown-Placed s inside c = elim (Bool-cases (c % 256 == 10)) [
  | inl nl ↦ simp nl (inr refl)
  | inr not_nl ↦ elim (Bool-cases (c % 256 == 13)) [
    | inl cr ↦ simp (not_nl, cr) (inr refl)
    | inr other ↦ elim (Bool-cases (ltb s.scroll_max_x (s.curr_x + 1))) [
      | inl edge ↦ simp (not_nl, other, edge) (inr refl)
      | inr more ↦ simp (not_nl, other, more) (inl inside)
    ]
  ]
]

-- While the duplication is off and the cursor is in the region or below it, `cio_putchar` scrolls the
-- cursor into the region, shows the character there, and moves the cursor on.
pub putchar-shown :
    (c : ℕ) (s : Cio)
    → s.dup_to_sio ≡ false
    → Bounded s
    → putchar c s ≡ ok tt (setcursor (shown c (scroll_down s)))
unfolding putchar
putchar-shown c s off b =
    let t = scroll_down s in
    let w = scroll_down-Within s b in
    let off' : t.dup_to_sio ≡ false = ap (λ (x : Cio). x.dup_to_sio) w.same ∙ off in
    let inside = scroll_down-inside s b in
    elim (Bool-cases (c % 256 == 10)) [
      | inl nl ↦ simp (nl, new_line-shown t off' w.bounded inside) refl
      | inr not_nl ↦ elim (Bool-cases (c % 256 == 13)) [
        | inl cr ↦ simp (not_nl, cr) refl
        | inr other ↦
            simp (not_nl, other, show_char-shown c t off' w.bounded inside not_nl other) refl
      ]
    ]

-- An output stays in the region.
putchar-Within :
    (c : ℕ) (s : Cio)
    → s.dup_to_sio ≡ false
    → Bounded s
    → Returns (λ _ t. Within s t × Placed t) (putchar c s)
putchar-Within c s off b =
    let w = scroll_down-Within s b in
    let inside = scroll_down-inside s b in
    rw (putchar-shown c s off b) (
      returns (
        Within-trans w (shown-Within (scroll_down s) w.bounded inside c),
        shown-Placed (scroll_down s) inside c,
      ))

-- With the cursor placed before, it is placed after any number of outputs.
write-Placed :
    (mem : Memory) (buf : Ptr) (n : ℕ) (s : Cio)
    → s.dup_to_sio ≡ false
    → Bounded s
    → Placed s
    → Returns (λ _ t. Within s t × Placed t) (write mem buf n s)
unfolding write
write-Placed mem buf zero s off b p = returns (Within-refl b, p)
write-Placed mem buf (suc n) s off b p =
    bind (putchar-Within (extend (mem buf)) s off b) (λ _ t (w, q).
      mono
        (write-Placed mem (buf + 1) n t (ap (λ (x : Cio). x.dup_to_sio) w.same ∙ off) w.bounded q)
        (λ _ u (w', r). (Within-trans w w', r)))

-- While the duplication is off and the cursor is in the region or below it, `cio_write` returns
-- whatever it writes, and changes nothing but the screen inside of the scrolling region, the cursor, and
-- the saved copy of the duplication flag. When it has written something, the cursor is in the region or at
-- the start of the line below it.
pub write-Within :
    (mem : Memory) (buf : Ptr) (n : ℕ) (s : Cio)
    → s.dup_to_sio ≡ false
    → Bounded s
    → Returns (λ _ t. Within s t × ((n ≡ 0) ⊎ Placed t)) (write mem buf n s)
unfolding write
write-Within mem buf zero s off b = returns (Within-refl b, inl refl)
write-Within mem buf (suc n) s off b =
    bind (putchar-Within (extend (mem buf)) s off b) (λ _ t (w, p).
      mono
        (write-Placed mem (buf + 1) n t (ap (λ (x : Cio). x.dup_to_sio) w.same ∙ off) w.bounded p)
        (λ _ u (w', q). (Within-trans w w', inr q)))
