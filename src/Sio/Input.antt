-- ===== src/Sio/Input.antt =====
-- The input buffer of kernel/sio.c as a sequence of characters: the interrupt handler's store,
-- sio_read and sio_readc.
use os_team.Base.{
  ℕ, ◌+◌, ◌-◌, ◌%◌, ◌≤◌, ◌<◌, ◌≡◌, refl, ap, true, false, ltb, List, [], ◌∷◌, ◌++◌, length,
  length-append, arith, ok, stop, fault, Returns, returns,
}
use os_team.Base.Chain.{update}
use os_team.Text.Memory.{Memory}
use os_team.Sio.{Sio, buf_size, store_in, take_in, reset_in}

-- The characters stand in the buffer from index `i` on.
abbrev pub Straight : Memory → ℕ → List ℕ → Type 0
Straight m i [] = Unit
Straight m i (c ∷ cs) = (m i ≡ c) × Straight m (i + 1) cs

-- The input buffer holds these characters, first in first out.
pub record Held (s : Sio) (cs : List ℕ) : Type 0 where
  pub last : s.inlast ≡ s.innext + length cs
  pub count : s.incount ≡ length cs
  pub inside : s.inlast ≤ buf_size
  pub cells : Straight s.inbuffer s.innext cs

Straight-snoc :
    (m : Memory) (i j c : ℕ) (cs : List ℕ)
    → j ≡ i + length cs
    → Straight m i cs
    → Straight (update m j c) i (cs ++ c ∷ [])
Straight-snoc m i j c [] at h = (ground arith, tt)
Straight-snoc m i j c (x ∷ cs) at h =
    (ground (arith, h.0), Straight-snoc m (i + 1) j c cs (omega (arith, at)) h.1)

-- A character that arrives while the input pointer is inside the buffer goes behind those that the
-- buffer holds, as a byte.
pub store_in-Held :
    (ch : ℕ) (s : Sio) (cs : List ℕ)
    → Held s cs
    → s.inlast < buf_size
    → Returns (λ _ s'. Held s' (cs ++ ch % 256 ∷ []) × (s'.inlast ≡ s.inlast + 1)) (store_in ch s)
unfolding store_in
store_in-Held ch s cs h low =
    let room : ltb s.incount buf_size ≡ true = ground (arith, h.last, h.count) in
    let low' : ltb s.inlast buf_size ≡ true = ground arith in
    let more : length (cs ++ ch % 256 ∷ []) ≡ length cs + 1 = length-append cs (ch % 256 ∷ []) in
    simp (room, low')
      (returns (
        record {
          last = omega (arith, h.last);
          count = omega (arith, h.count);
          inside = omega arith;
          cells = Straight-snoc s.inbuffer s.innext s.inlast (ch % 256) cs h.last h.cells;
        },
        refl,
      ))

-- When the input pointer has reached the end of the buffer and a character was read since, the next
-- character is stored behind the end of the buffer.
pub store_in-outside :
    (ch : ℕ) (s : Sio) (cs : List ℕ)
    → Held s cs
    → s.inlast ≡ buf_size
    → 0 < s.innext
    → store_in ch s ≡ stop fault
unfolding store_in
store_in-outside ch s cs h full gone =
    let room : ltb s.incount buf_size ≡ true = ground (arith, h.last, h.count) in
    let out : ltb s.inlast buf_size ≡ false = ground arith in simp (room, out) refl

-- The state after a character is taken.
abbrev pub taken : Sio → Sio
taken s = record s { innext = s.innext + 1; incount = s.incount - 1 }

pub taken-Held : (s : Sio) (c : ℕ) (cs : List ℕ) → Held s (c ∷ cs) → Held (taken s) cs
taken-Held s c cs h = record {
  last = omega (arith, h.last);
  count = omega (arith, h.count);
  inside = h.inside;
  cells = h.cells.1;
}

-- Resetting an empty buffer keeps what it holds, nothing.
pub reset_in-Held : (s : Sio) (cs : List ℕ) → Held s cs → Held (reset_in s) cs
unfolding reset_in
reset_in-Held s [] h =
    let gone : ltb s.incount 1 ≡ true = ground (arith, h.count) in
    simp gone (record { last = refl; count = h.count; inside = omega arith; cells = tt })
reset_in-Held s (c ∷ cs) h =
    let some_left : ltb s.incount 1 ≡ false = ground (arith, h.count) in simp some_left h

pub take_in-ok : (s : Sio) (c : ℕ) (cs : List ℕ) → Held s (c ∷ cs) → take_in s ≡ ok c (taken s)
unfolding take_in
take_in-ok s c cs h =
    let low : ltb s.innext buf_size ≡ true = ground (arith, h.last, h.inside) in
    simp low (ap (λ x. ok x (taken s)) h.cells.0)
