-- ===== src/Console/Region.antt =====
-- Output inside the scrolling region of kernel/cio.c, and the scrolling with which it begins.
use os_team.Base.{ℕ, ◌-◌, ◌≤◌, ◌≡◌, refl, ◌∙◌, ap, inl, inr, false, ltb, Bool-cases, arith}
use os_team.Console.{Cio, scroll_down, scroll, clearscroll, setcursor}
use os_team.Console.Cursor.{Bounded, redrawn, redrawn-Bounded}
use os_team.Console.Scroll.{in_region, scroll-scrolled}

-- What the output functions leave alone: all but the screen, the cursor, and `dup2sio_bak`.
abbrev pub rest : Cio → Cio
rest s = redrawn s (λ _. 0) 0 0 0 false

-- The output stays inside the scrolling region: nothing but the screen inside of it, the cursor and the
-- saved copy of the duplication flag changes, and the cursor stays in the columns of the region, on its
-- lines or on the line below them.
pub record Within (s t : Cio) : Type 0 where
  pub bounded : Bounded t
  pub same : rest t ≡ rest s
  pub outside : (a : ℕ) → in_region s a ≡ false → t.video a ≡ s.video a

pub Within-trans : {s t u : Cio} → Within s t → Within t u → Within s u
Within-trans {s} {t} {u} h k = record {
  bounded = k.bounded;
  same = k.same ∙ h.same;
  outside = λ a out. k.outside a (ap (λ c. in_region c a) h.same ∙ out) ∙ h.outside a out;
}

pub Within-refl : {s : Cio} → Bounded s → Within s s
Within-refl b = record { bounded = b; same = refl; outside = λ a out. refl }

scroll_down-outside :
    (s : Cio) (a : ℕ) → Bounded s → in_region s a ≡ false → (scroll_down s).video a ≡ s.video a
unfolding scroll_down
scroll_down-outside s a b out = elim (Bool-cases (ltb s.scroll_max_y s.curr_y)) [
  | inl below ↦
      simp below (scroll-scrolled (s.curr_y - s.scroll_max_y) s a b (ground arith) ∙ rw out)
  | inr inside ↦ simp inside refl
]

-- The parts that the first statement keeps: a Boolean decides between two ways of scrolling.
module _ (s : Cio) (b : Bounded s) where
  scroll_down-Bounded : Bounded (scroll_down s)
  unfolding scroll_down scroll setcursor clearscroll
  scroll_down-Bounded = elim (Bool-cases (ltb s.scroll_max_y s.curr_y)) [
    | inl below ↦
        elim (Bool-cases (ltb (s.scroll_max_y - s.scroll_min_y) (s.curr_y - s.scroll_max_y))) [
          | inl many ↦
              simp (below, many)
                (redrawn-Bounded s _ s.scroll_min_x s.scroll_max_y _ s.dup2sio_bak b (omega arith)
                  b.width b.height (omega arith))
          | inr few ↦
              simp (below, few)
                (redrawn-Bounded s _ s.curr_x s.scroll_max_y s.cursor s.dup2sio_bak b b.from_x
                  b.to_x b.height (omega arith))
        ]
    | inr inside ↦ simp inside b
  ]

  scroll_down-rest : rest (scroll_down s) ≡ rest s
  unfolding scroll_down scroll setcursor clearscroll
  scroll_down-rest = elim (Bool-cases (ltb s.scroll_max_y s.curr_y)) [
    | inl below ↦
        elim (Bool-cases (ltb (s.scroll_max_y - s.scroll_min_y) (s.curr_y - s.scroll_max_y))) [
          | inl many ↦ simp (below, many) refl
          | inr few ↦ simp (below, few) refl
        ]
    | inr inside ↦ simp inside refl
  ]

  pub scroll_down-Within : Within s (scroll_down s)
  scroll_down-Within = record {
    bounded = scroll_down-Bounded;
    same = scroll_down-rest;
    outside = λ a out. scroll_down-outside s a b out;
  }

  -- Afterwards the cursor is in the region.
  pub scroll_down-inside : (scroll_down s).curr_y ≤ (scroll_down s).scroll_max_y
  unfolding scroll_down scroll setcursor clearscroll
  scroll_down-inside = elim (Bool-cases (ltb s.scroll_max_y s.curr_y)) [
    | inl below ↦
        elim (Bool-cases (ltb (s.scroll_max_y - s.scroll_min_y) (s.curr_y - s.scroll_max_y))) [
          | inl many ↦ simp (below, many) (omega arith)
          | inr few ↦ simp (below, few) (omega arith)
        ]
    | inr inside ↦ simp inside (ground arith)
  ]
