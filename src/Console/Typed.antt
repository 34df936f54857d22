-- ===== src/Console/Typed.antt =====
-- The circular buffer of kernel/cio.c as a sequence of the characters typed.
use os_team.Base.{
  ℕ, ◌+◌, ◌<◌, ◌≡◌, ap, inl, inr, true, false, ◌==◌, if◌then◌else◌, List, [], ◌∷◌, ◌++◌, length,
  length-append, arith, ok, Bool-cases,
}
use os_team.Base.Circular.{around, Round, Round-snoc}
use os_team.Console.{Cio}
use os_team.Console.Keyboard.{c_bufsize, increment, store_char, input_queue}

-- The buffer holds these characters, first in first out; a cell always stays free.
pub record Typed (s : Cio) (cs : List ℕ) : Type 0 where
  pub next : s.next_char < c_bufsize
  pub last : s.next_space ≡ around c_bufsize s.next_char (length cs)
  pub few : length cs < c_bufsize
  pub cells : Round c_bufsize s.input_buffer s.next_char cs

-- The character goes to the end, unless the buffer holds one character less than its size.
abbrev pub typed : ℕ → List ℕ → List ℕ
typed c cs = if length cs + 1 == c_bufsize then cs else cs ++ c ∷ []

-- A character stored by the keyboard goes behind those in the buffer if there is room for it, and is
-- lost if there is not.
pub store_char-Typed :
    (c : ℕ) (s : Cio) (cs : List ℕ) → Typed s cs → Typed (store_char c s) (typed c cs)
unfolding store_char
store_char-Typed c s cs t = elim (Bool-cases (length cs + 1 == c_bufsize)) [
  | inl full ↦
      let meets : (increment s.next_space == s.next_char) ≡ true =
        ground (arith, t.last, t.next, t.few) in
      simp (full, meets) t
  | inr room ↦
      let apart : (increment s.next_space == s.next_char) ≡ false =
        ground (arith, t.last, t.next, t.few) in
      let more : length (cs ++ c ∷ []) ≡ length cs + 1 = length-append cs (c ∷ []) in
      simp (room, apart)
        (record {
          next = t.next;
          last = ground (arith, t.last, t.next, t.few);
          few = ground (arith, t.few);
          cells =
              Round-snoc c_bufsize s.input_buffer s.next_char s.next_space c cs t.next t.few t.last
                t.cells;
        })
]

-- `cio_input_queue` is the number of characters in the buffer.
pub input_queue-length : (s : Cio) (cs : List ℕ) → Typed s cs → input_queue s ≡ ok (length cs) s
unfolding input_queue
input_queue-length s cs t = ap (λ n. ok n s) (ground (arith, t.last, t.next, t.few))
