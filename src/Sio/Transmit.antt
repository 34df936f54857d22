-- ===== src/Sio/Transmit.antt =====
-- The transmitter interrupt of kernel/sio.c on the serial line.
use mathlib.Core.List.{append_assoc, append-nil}
use mathlib.Core.Path.{subst}
use os_team.Base.{
  ℕ, zero, suc, ◌+◌, ◌-◌, ◌<◌, ◌≡◌, refl, sym, ap, ◌∙◌, inl, inr, true, false, ◌&&◌, ltb,
  if◌then◌else◌, List, [], ◌∷◌, ◌++◌, length, nil_of_length, arith, ok, Cmd, pure, ◌>>◌, Returns,
  returns, bind, mono, Bool-cases,
}
use os_team.Sio.{Sio, Port, wrap, has_bit, sio_tx, ier_tx_ie, disable, transmit}
use os_team.Sio.Output.{Queued}
use os_team.Sio.Line.{transmitted, transmitted-append, Line, set_ier-kept}

-- The state after the transmitter takes the first character that waits.
abbrev sent : Sio → Sio
sent s = record s {
  written = s.written ++ (Port.ua4_txd, s.outbuffer s.outnext) ∷ [];
  outnext = wrap (s.outnext + 1);
  outcount = s.outcount - 1;
}

-- The state before the transmitter's interrupt is switched off.
abbrev at_rest : Sio → Sio
at_rest s = record s { outcount = 0; outlast = 0; outnext = 0; sending = false }

Queued-tail : (s : Sio) (c : ℕ) (cs : List ℕ) → Queued s (c ∷ cs) → Queued (sent s) cs
Queued-tail s c cs q = record {
  next = ground (arith, q.next);
  last = q.last ∙ ground (arith, q.next, q.few);
  count = omega (arith, q.count);
  few = omega (arith, q.few);
  cells = q.cells.1;
}

sent-Line :
    (s : Sio) (c : ℕ) (cs l : List ℕ)
    → s.sending ≡ true
    → Queued s (c ∷ cs)
    → transmitted s.written ++ c ∷ cs ≡ l
    → Line (sent s) l
sent-Line s c cs l on q all = record {
  waiting = cs;
  queued = Queued-tail s c cs q;
  all =
      ap (λ h. h ++ cs)
        (transmitted-append s.written ((Port.ua4_txd, s.outbuffer s.outnext) ∷ [])
          ∙ ap (λ x. transmitted s.written ++ x ∷ []) q.cells.0)
      ∙ append_assoc (transmitted s.written) (c ∷ []) cs
      ∙ all;
  idle = λ off. cc;
}

-- The line is at rest, and all that was on it has been transmitted.
pub record Rested (s : Sio) (l : List ℕ) : Type 0 where
  pub line : Line s l
  pub off : s.sending ≡ false
  pub all_sent : transmitted s.written ≡ l

rest-Rested :
    (s : Sio) (l : List ℕ)
    → transmitted s.written ≡ l
    → Returns (λ _ s'. Rested s' l) (disable sio_tx (at_rest s))
unfolding disable
rest-Rested s l all =
    let v = if has_bit ier_tx_ie s.ier then s.ier - ier_tx_ie else s.ier in
    mono (set_ier-kept v (at_rest s)) (λ _ s' (w, e, kept).
      subst (λ t. Rested t l) (sym e)
        (record {
          line = record {
            waiting = [];
            queued = record {
              next = omega arith;
              last = refl;
              count = refl;
              few = omega arith;
              cells = tt;
            };
            all = append-nil (transmitted w) ∙ kept ∙ all;
            idle = λ _. refl;
          };
          off = refl;
          all_sent = kept ∙ all;
        }))

transmit_next : (s : Sio) → s.sending ≡ true → 0 < s.outcount → transmit s ≡ ok tt (sent s)
unfolding transmit
transmit_next s on some_left =
    let more : ltb 0 s.outcount ≡ true = ground arith in simp (on, more) refl

transmit_last :
    (s : Sio) (l : List ℕ) → Line s l → s.outcount ≡ 0 → Returns (λ _ s'. Rested s' l) (transmit s)
unfolding transmit
transmit_last s l k none_left =
    let stop : (s.sending && ltb 0 s.outcount) ≡ false = ground arith in
    let gone : k.waiting ≡ [] = nil_of_length k.waiting (omega (arith, k.queued.count)) in
    let all : transmitted s.written ≡ l =
      sym (append-nil (transmitted s.written))
      ∙ ap (λ ws. transmitted s.written ++ ws) (sym gone)
      ∙ k.all in
    simp stop (bind (rest-Rested s l all) (λ _ s' done. returns done))

-- The transmitter asks for a character again and again.
unfoldable pub transmit_times : ℕ → Cmd Sio (Unit {0})
transmit_times zero = pure tt
transmit_times (suc n) = transmit >> transmit_times n

-- A line with characters waiting is being sent.
waiting-sending :
    (s : Sio) (l : List ℕ) (k : Line s l)
    → 0 < s.outcount
    → (s.sending ≡ true) × (c : ℕ) × (cs : List ℕ) × (k.waiting ≡ c ∷ cs)
waiting-sending s l k some_left = elim (Bool-cases s.sending) [
  | inl on ↦ let (c, cs, e) = first k.waiting (omega (arith, k.queued.count)) in (on, c, cs, e)
  | inr off ↦ absurd (omega (arith, k.queued.count, ap length (k.idle off)))
]
  where
    first : (ws : List ℕ) → 0 < length ws → (c : ℕ) × (cs : List ℕ) × (ws ≡ c ∷ cs)
    first [] h = absurd (omega arith)
    first (c ∷ cs) h = (c, cs, refl)

drain :
    (n : ℕ) (s : Sio) (l : List ℕ)
    → Line s l
    → s.outcount ≡ n
    → Returns (λ _ s'. Rested s' l) (transmit_times (suc n) s)
unfolding transmit_times
drain zero s l k count = bind (transmit_last s l k count) (λ _ s' done. returns done)
drain (suc n) s l k count =
    let (on, c, cs, e) = waiting-sending s l k (omega arith) in
    let q : Queued s (c ∷ cs) = subst (λ (ws : List ℕ). Queued s ws) e k.queued in
    let next : Line (sent s) l =
      sent-Line s c cs l on q (ap (λ ws. transmitted s.written ++ ws) (sym e) ∙ k.all) in
    simp (transmit_next s on (omega arith)) (drain n (sent s) l next (omega arith))

-- After as many transmitter interrupts as characters wait, and one more, all that was on the line has
-- been transmitted, in order, and the line is at rest.
pub transmit_times-Rested :
    (s : Sio) (l : List ℕ)
    → Line s l
    → Returns (λ _ s'. Rested s' l) (transmit_times (s.outcount + 1) s)
transmit_times-Rested s l k =
    let one : suc s.outcount ≡ s.outcount + 1 = omega arith in
    subst (λ n. Returns (λ _ s'. Rested s' l) (transmit_times n s)) one
      (drain s.outcount s l k refl)
