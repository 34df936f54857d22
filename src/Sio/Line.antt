-- ===== src/Sio/Line.antt =====
-- The serial line of kernel/sio.c as one sequence: what was transmitted, and then what waits in the
-- output buffer.
use mathlib.Core.List.{append-nil}
use os_team.Base.{
  ℕ, ◌+◌, ◌%◌, ◌≡◌, refl, ap, ◌∙◌, inl, inr, true, false, ◌==◌, if◌then◌else◌, List, [], ◌∷◌, ◌++◌,
  Returns, returns, bind, Bool-cases,
}
use os_team.Sio.{Sio, Port, has_bit, ier_tx_ie, set_ier, enable, send_char}
use os_team.Sio.Output.{Queued}

-- The bytes that went to the transmitter.
abbrev pub transmitted : List (Port × ℕ) → List ℕ
transmitted [] = []
transmitted ((Port.ua4_txd, v) ∷ rest) = v ∷ transmitted rest
transmitted (_ ∷ rest) = transmitted rest

pub transmitted-append :
    (xs ys : List (Port × ℕ)) → transmitted (xs ++ ys) ≡ transmitted xs ++ transmitted ys
transmitted-append [] ys = refl
transmitted-append ((Port.ua4_txd, v) ∷ xs) ys = ap (λ l. v ∷ l) (transmitted-append xs ys)
transmitted-append ((Port.ua4_ier, v) ∷ xs) ys = transmitted-append xs ys
transmitted-append ((Port.ua5_fcr, v) ∷ xs) ys = transmitted-append xs ys
transmitted-append ((Port.ua4_lcr, v) ∷ xs) ys = transmitted-append xs ys
transmitted-append ((Port.ua4_dll, v) ∷ xs) ys = transmitted-append xs ys
transmitted-append ((Port.ua4_dlm, v) ∷ xs) ys = transmitted-append xs ys
transmitted-append ((Port.ua4_mcr, v) ∷ xs) ys = transmitted-append xs ys

-- The line carries the sequence `l`: the end of it waits in the output buffer, which is empty while
-- nothing is being sent.
pub record Line (s : Sio) (l : List ℕ) : Type 0 where
  pub waiting : List ℕ
  pub queued : Queued s waiting
  pub all : transmitted s.written ++ waiting ≡ l
  pub idle : s.sending ≡ false → waiting ≡ []

-- A write of the interrupt register is not seen on the line.
pub set_ier-kept :
    (v : ℕ) (s : Sio)
    → Returns
        (λ _ s'.
          (w : List (Port × ℕ)) × (s' ≡ record s { ier = v; written = w })
          × (transmitted w ≡ transmitted s.written))
        (set_ier v s)
unfolding set_ier
set_ier-kept v s = elim (Bool-cases (s.ier == v)) [
  | inl same ↦ rw same (returns (s.written, refl, refl))
  | inr new ↦ rw new (
      returns (
        s.written ++ (Port.ua4_ier, v) ∷ [],
        refl,
        transmitted-append s.written ((Port.ua4_ier, v) ∷ []) ∙ append-nil (transmitted s.written),
      ))
]

-- The state after the first character of an idle line.
abbrev pub Starts : Sio → ℕ → Sio → Type 0
Starts s c s' =
    (v : ℕ) × (w : List (Port × ℕ)) × (s' ≡ record s { sending = true; ier = v; written = w })
    × (transmitted w ≡ transmitted s.written ++ c % 256 ∷ [])

pub send_char-Starts :
    (c : ℕ) (s : Sio) → s.sending ≡ false → Returns (λ _ s'. Starts s c s') (send_char c s)
unfolding send_char enable
send_char-Starts c s idle =
    let s1 : Sio = record s {
      sending = true;
      written = s.written ++ (Port.ua4_txd, c % 256) ∷ [];
    } in
    let v = if has_bit ier_tx_ie s.ier then s.ier else s.ier + ier_tx_ie in
    rw idle (
      bind (set_ier-kept v s1) (λ _ s2 (w, e, kept).
        returns (v, w, e, kept ∙ transmitted-append s.written ((Port.ua4_txd, c % 256) ∷ []))))
