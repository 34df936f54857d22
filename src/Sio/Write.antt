-- ===== src/Sio/Write.antt =====
-- sio_write of kernel/sio.c on the serial line.
use mathlib.Core.List.{append_assoc, append-nil}
use mathlib.Core.Path.{subst}
use os_team.Base.{
  ℕ, zero, suc, ◌+◌, ◌-◌, ◌%◌, ◌≤◌, ◌<◌, ◌≡◌, ◌≢◌, ◌⊎◌, refl, sym, ap, ◌∙◌, inl, inr, true, false,
  leb, ◌==◌, List, [], ◌∷◌, ◌++◌, length, length-append, arith, Returns, returns, bind, Bool-cases,
}
use os_team.Base.Chain.{Ptr}
use os_team.Text.Memory.{Memory}
use os_team.Sio.{Sio, buf_size, writec, newline, write}
use os_team.Sio.Output.{Queued, Appends, Copies, bytes, accepted, copy_out-Copies}
use os_team.Sio.Line.{transmitted, Line, Starts, send_char-Starts}

-- `r` characters of the buffer go on the line, which is being sent; the rest only finds no room.
pub record Accepts (mem : Memory) (buffer : Ptr) (length : ℕ) (l : List ℕ) (r : ℕ) (s' : Sio)
    : Type 0 where
  pub few : r ≤ length
  pub line : Line s' (l ++ bytes mem buffer r)
  pub full : (r ≡ length) ⊎ (s'.outcount ≡ buf_size)
  pub sending : s'.sending ≡ true

accepted-le : (left used : ℕ) → accepted left used ≤ left
accepted-le left used = ground arith

length-bytes : (mem : Memory) (ptr : Ptr) (n : ℕ) → length (bytes mem ptr n) ≡ n
length-bytes mem ptr zero = refl
length-bytes mem ptr (suc n) = ap suc (length-bytes mem (ptr + 1) n)

accepted-all :
    (left used : ℕ)
    → used ≤ buf_size
    → (accepted left used ≡ left) ⊎ (used + accepted left used ≡ buf_size)
accepted-all left used few = elim (Bool-cases (leb left (buf_size - used))) [
  | inl fits ↦ inl (ground arith)
  | inr over ↦ inr (ground arith)
]

module _ (mem : Memory) (buffer : Ptr) (n : ℕ) (s : Sio) (l : List ℕ) (k : Line s l) where
  -- The line goes on with what is appended while it is being sent.
  appended :
      (r : ℕ) (s' : Sio)
      → s.sending ≡ true
      → Copies mem s k.waiting n buffer 0 r s'
      → Accepts mem buffer n l r s'
  appended r s' busy (e, a) =
      let size = accepted n (length k.waiting) in
      let same : size ≡ r = omega (arith, e) in
      let on : s'.sending ≡ true = a.sending ∙ busy in
      record {
        few = omega (arith, same, accepted-le n (length k.waiting));
        line = record {
          waiting = k.waiting ++ bytes mem buffer size;
          queued = a.queued;
          all =
              ap (λ w. transmitted w ++ (k.waiting ++ bytes mem buffer size)) a.written
              ∙ sym (append_assoc (transmitted s.written) k.waiting (bytes mem buffer size))
              ∙ ap (λ h. h ++ bytes mem buffer size) k.all
              ∙ ap (λ i. l ++ bytes mem buffer i) same;
          idle = λ off. cc;
        };
        full = elim (accepted-all n (length k.waiting) k.queued.few) [
          | inl all ↦ inl (sym same ∙ all)
          | inr no_room ↦ inr (
              omega (
                arith,
                a.queued.count,
                no_room,
                length-append k.waiting (bytes mem buffer size),
                length-bytes mem buffer size,
              ))
        ];
        sending = on;
      }

  -- The first character starts an idle line, and the others stand in the buffer.
  started :
      (r size : ℕ) (s1 s2 : Sio)
      → s.sending ≡ false
      → 0 < n
      → size ≡ accepted (n - 1) 0
      → r ≡ 1 + size
      → Appends s (bytes mem (buffer + 1) size) s1
      → Starts s1 (mem buffer) s2
      → Accepts mem buffer n l r s2
  started r size s1 s2 off some_left e er a (v, w, es, sent) =
      let r' : suc size ≡ r = omega arith in
      let rest = bytes mem (buffer + 1) size in
      let count : s1.outcount ≡ size = a.queued.count ∙ length-bytes mem (buffer + 1) size in
      let before : transmitted s.written ≡ l =
        sym (append-nil (transmitted s.written))
        ∙ ap (λ ws. transmitted s.written ++ ws) (sym (k.idle off))
        ∙ k.all in
      subst (λ t. Accepts mem buffer n l r t) (sym es)
        (record {
          few = omega (arith, accepted-le (n - 1) 0);
          line = record {
            waiting = rest;
            queued = record {
              next = a.queued.next;
              last = a.queued.last;
              count = a.queued.count;
              few = a.queued.few;
              cells = a.queued.cells;
            };
            all =
                ap (λ h. h ++ rest)
                  (sent ∙ ap (λ h. transmitted h ++ mem buffer % 256 ∷ []) a.written)
                ∙ append_assoc (transmitted s.written) (mem buffer % 256 ∷ []) rest
                ∙ ap (λ h. h ++ mem buffer % 256 ∷ rest) before
                ∙ ap (λ i. l ++ bytes mem buffer i) r';
            idle = λ on. cc;
          };
          full = elim (accepted-all (n - 1) 0 (omega arith)) [
            | inl all ↦ inl (omega arith)
            | inr no_room ↦ inr (omega arith)
          ];
          sending = refl;
        })

  -- `sio_write`. When a line is being sent, or is idle and the buffer begins with a character that is
  -- not a newline, a write of at least one character returns how many characters it took from the
  -- start of the buffer. These come on the line behind all that is on it, in order, and the line is
  -- being sent. Either all were taken, or the output buffer is full.
  pub write-Accepts :
      0 < n
      → (s.sending ≡ false → mem buffer ≢ newline)
      → Returns (Accepts mem buffer n l) (write mem buffer n s)
  unfolding write writec
  write-Accepts some_left plain = elim (Bool-cases s.sending) [
    | inl busy ↦
        let left : n - 0 ≡ n = omega arith in
        let start : buffer + 0 ≡ buffer = omega arith in
        simp (busy, left, start)
          (bind (copy_out-Copies mem n buffer 0 s k.waiting k.queued) (λ r s' done.
            let on : s'.sending ≡ true = done.1.sending ∙ busy in
            simp on (returns (appended r s' busy done))))
    | inr off ↦
        let empty : Queued s [] = subst (λ (ws : List ℕ). Queued s ws) (k.idle off) k.queued in
        let letter : (mem buffer == newline) ≡ false = ground (arith, plain off) in
        simp off (
          bind (copy_out-Copies mem (n - 1) (buffer + 1) 1 s [] empty) (λ r s1 (e, a).
            let still : s1.sending ≡ false = a.sending ∙ off in
            simp (still, letter)
              (bind (send_char-Starts (mem buffer) s1 still) (λ _ s2 go.
                returns (started r (accepted (n - 1) 0) s1 s2 off some_left refl e a go)))))
  ]
