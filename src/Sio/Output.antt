-- ===== src/Sio/Output.antt =====
-- The output buffer of kernel/sio.c as a sequence of characters: sio_write.
use mathlib.Core.List.{append_assoc, append-nil}
use mathlib.Core.Path.{subst}
use os_team.Base.{
  ℕ, zero, suc, ◌+◌, ◌-◌, ◌%◌, ◌≤◌, ◌<◌, ◌≡◌, refl, sym, ap, ◌∙◌, inl, inr, true, false, ltb, leb,
  if◌then◌else◌, List, [], ◌∷◌, ◌++◌, length, length-append, arith, Returns, returns, mono,
  Bool-cases,
}
use os_team.Base.Chain.{Ptr, update}
use os_team.Base.Circular.{around, Round, Round-snoc}
use os_team.Text.Memory.{Memory}
use os_team.Sio.{Sio, buf_size, wrap, store_out, wrap_out, count_out, copy_out}

-- The output buffer holds these characters, first in first out.
pub record Queued (s : Sio) (cs : List ℕ) : Type 0 where
  pub next : s.outnext < buf_size
  pub last : s.outlast ≡ around buf_size s.outnext (length cs)
  pub count : s.outcount ≡ length cs
  pub few : length cs ≤ buf_size
  pub cells : Round buf_size s.outbuffer s.outnext cs

-- The state after a character is stored.
abbrev pub pushed : Sio → ℕ → Sio
pushed s c = record s {
  outbuffer = update s.outbuffer s.outlast (c % 256);
  outlast = wrap (s.outlast + 1);
  outcount = s.outcount + 1;
}

pub pushed-Queued :
    (s : Sio) (cs : List ℕ) (c : ℕ)
    → Queued s cs
    → length cs < buf_size
    → Queued (pushed s c) (cs ++ c % 256 ∷ [])
pushed-Queued s cs c q room =
    let more : length (cs ++ c % 256 ∷ []) ≡ length cs + 1 = length-append cs (c % 256 ∷ []) in
    record {
      next = q.next;
      last = ground (arith, q.last, q.next);
      count = omega (arith, q.count);
      few = omega arith;
      cells =
          Round-snoc buf_size s.outbuffer s.outnext s.outlast (c % 256) cs q.next room q.last
            q.cells;
    }

-- The bytes from an address on.
abbrev pub bytes : Memory → Ptr → ℕ → List ℕ
bytes mem ptr zero = []
bytes mem ptr (suc n) = mem ptr % 256 ∷ bytes mem (ptr + 1) n

-- How many of `left` characters there is room for, behind `used` ones.
abbrev pub accepted : (left used : ℕ) → ℕ
accepted left used = if leb left (buf_size - used) then left else buf_size - used

-- Only the output buffer is new, and what it holds.
pub record Appends (s : Sio) (cs : List ℕ) (s' : Sio) : Type 0 where
  pub queued : Queued s' cs
  pub sending : s'.sending ≡ s.sending
  pub ier : s'.ier ≡ s.ier
  pub written : s'.written ≡ s.written

abbrev pub Copies : Memory → Sio → List ℕ → (left : ℕ) → Ptr → ℕ → ℕ → Sio → Type 0
Copies mem s cs left ptr copied r s' =
    (r ≡ copied + accepted left (length cs))
    × Appends s (cs ++ bytes mem ptr (accepted left (length cs))) s'

copy_round :
    (mem : Memory) (left : ℕ) (ptr : Ptr) (copied : ℕ) (s : Sio)
    → s.outlast < buf_size
    → s.outcount < buf_size
    → copy_out mem (suc left) ptr copied s
      ≡ copy_out mem left (ptr + 1) (copied + 1) (pushed s (mem ptr))
unfolding copy_out store_out wrap_out count_out
copy_round mem left ptr copied s low room =
    let room' : leb buf_size s.outcount ≡ false = ground arith in
    let low' : ltb s.outlast buf_size ≡ true = ground arith in rw (room', low') refl

stays :
    (mem : Memory) (left : ℕ) (ptr : Ptr) (copied : ℕ) (s : Sio) (cs : List ℕ)
    → Queued s cs
    → accepted left (length cs) ≡ 0
    → Copies mem s cs left ptr copied copied s
stays mem left ptr copied s cs q none_taken =
    let same : cs ++ bytes mem ptr (accepted left (length cs)) ≡ cs =
      ap (λ n. cs ++ bytes mem ptr n) none_taken ∙ append-nil cs in
    (
      omega arith,
      record {
        queued = subst (λ (l : List ℕ). Queued s l) (sym same) q;
        sending = refl;
        ier = refl;
        written = refl;
      },
    )

moves_on :
    (mem : Memory) (left : ℕ) (ptr : Ptr) (copied : ℕ) (s : Sio) (cs : List ℕ) (r : ℕ) (s' : Sio)
    → length cs < buf_size
    → Copies mem (pushed s (mem ptr)) (cs ++ mem ptr % 256 ∷ []) left (ptr + 1) (copied + 1) r s'
    → Copies mem s cs (suc left) ptr copied r s'
moves_on mem left ptr copied s cs r s' room (e, a) =
    let c = mem ptr % 256 in
    let more : length (cs ++ c ∷ []) ≡ length cs + 1 = length-append cs (c ∷ []) in
    let n = accepted left (length (cs ++ c ∷ [])) in
    let one : accepted (suc left) (length cs) ≡ suc n = ground arith in
    let all : (cs ++ c ∷ []) ++ bytes mem (ptr + 1) n
        ≡ cs ++ bytes mem ptr (accepted (suc left) (length cs)) =
      append_assoc cs (c ∷ []) (bytes mem (ptr + 1) n)
      ∙ ap (λ k. cs ++ bytes mem ptr k) (sym one) in
    (
      omega arith,
      record {
        queued = subst (λ (l : List ℕ). Queued s' l) all a.queued;
        sending = a.sending;
        ier = a.ier;
        written = a.written;
      },
    )

pub copy_out-Copies :
    (mem : Memory) (left : ℕ) (ptr : Ptr) (copied : ℕ) (s : Sio) (cs : List ℕ)
    → Queued s cs
    → Returns (Copies mem s cs left ptr copied) (copy_out mem left ptr copied s)
unfolding copy_out
copy_out-Copies mem zero ptr copied s cs q = returns (stays mem 0 ptr copied s cs q (ground arith))
copy_out-Copies mem (suc left) ptr copied s cs q = elim (Bool-cases (leb buf_size s.outcount)) [
  | inl full ↦ rw full (returns (stays mem (suc left) ptr copied s cs q (ground (arith, q.count))))
  | inr room ↦
      let few : length cs < buf_size = ground (arith, q.count) in
      rw (copy_round mem left ptr copied s (ground (arith, q.last, q.next, few)) (ground arith)) (
        mono
          (copy_out-Copies mem left (ptr + 1) (copied + 1) (pushed s (mem ptr))
            (cs ++ mem ptr % 256 ∷ []) (pushed-Queued s cs (mem ptr) q few))
          (λ r s' done. moves_on mem left ptr copied s cs r s' few done))
]
