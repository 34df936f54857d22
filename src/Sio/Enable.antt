-- ===== src/Sio/Enable.antt =====
-- sio_enable, sio_disable and sio_init of kernel/sio.c: the interrupt register.
use os_team.Base.{
  ℕ, ◌/◌, ◌≡◌, refl, ap, ◌∙◌, inl, inr, Bool, not, ◌&&◌, ◌||◌, ◌==◌, if◌then◌else◌, List, [], ◌∷◌,
  ◌++◌, arith, Returns, returns, mono, Bool-cases, eq_of_==,
}
use os_team.Sio.{
  Sio, Port, has_bit, set_bit, clear_bit, sio_tx, sio_rx, ier_tx_ie, ier_rx_ie, set_ier, enable,
  disable,
}

-- What the interrupt register holds after these writes, `v` before them.
abbrev pub register : ℕ → List (Port × ℕ) → ℕ
register v [] = v
register v ((Port.ua4_ier, w) ∷ rest) = register w rest
register v (_ ∷ rest) = register v rest

register-snoc : (v w : ℕ) (xs : List (Port × ℕ)) → register v (xs ++ (Port.ua4_ier, w) ∷ []) ≡ w
register-snoc v w [] = refl
register-snoc v w ((Port.ua4_txd, x) ∷ xs) = register-snoc v w xs
register-snoc v w ((Port.ua4_ier, x) ∷ xs) = register-snoc x w xs
register-snoc v w ((Port.ua5_fcr, x) ∷ xs) = register-snoc v w xs
register-snoc v w ((Port.ua4_lcr, x) ∷ xs) = register-snoc v w xs
register-snoc v w ((Port.ua4_dll, x) ∷ xs) = register-snoc v w xs
register-snoc v w ((Port.ua4_dlm, x) ∷ xs) = register-snoc v w xs
register-snoc v w ((Port.ua4_mcr, x) ∷ xs) = register-snoc v w xs

-- The variable holds what the register holds.
abbrev pub InStep : Sio → Type 0
InStep s = register 0 s.written ≡ s.ier

set_ier-InStep :
    (v : ℕ) (s : Sio)
    → InStep s
    → Returns (λ old s'. (old ≡ s.ier) × (s'.ier ≡ v) × InStep s') (set_ier v s)
unfolding set_ier
set_ier-InStep v s h = elim (Bool-cases (s.ier == v)) [
  | inl same ↦ simp same (returns (refl, refl, h ∙ eq_of_== s.ier v same))
  | inr new ↦ simp new (returns (refl, refl, register-snoc 0 v s.written))
]

-- One step of either function.
abbrev changed : (set : ℕ → ℕ → ℕ) (which v : ℕ) → ℕ
changed set which v =
    let tx = if has_bit sio_tx which then set ier_tx_ie v else v in
    if has_bit sio_rx which then set ier_rx_ie tx else tx

-- The outcome: the old setting is the result, the two bits are these, and the others are as before.
pub record Sets (tx_on rx_on : Bool) (s : Sio) (result : ℕ) (s' : Sio) : Type 0 where
  pub old : result ≡ s.ier
  pub tx : has_bit ier_tx_ie s'.ier ≡ tx_on
  pub rx : has_bit ier_rx_ie s'.ier ≡ rx_on
  pub others : s'.ier / 4 ≡ s.ier / 4
  pub in_step : InStep s'

set_tx :
    (which v : ℕ)
    → has_bit ier_tx_ie (changed set_bit which v) ≡ (has_bit sio_tx which || has_bit ier_tx_ie v)
set_tx which v = ground arith

set_rx :
    (which v : ℕ)
    → has_bit ier_rx_ie (changed set_bit which v) ≡ (has_bit sio_rx which || has_bit ier_rx_ie v)
set_rx which v = ground arith

set_others : (which v : ℕ) → changed set_bit which v / 4 ≡ v / 4
set_others which v = ground arith

clear_tx :
    (which v : ℕ)
    → has_bit ier_tx_ie (changed clear_bit which v)
      ≡ (not (has_bit sio_tx which) && has_bit ier_tx_ie v)
clear_tx which v = ground arith

clear_rx :
    (which v : ℕ)
    → has_bit ier_rx_ie (changed clear_bit which v)
      ≡ (not (has_bit sio_rx which) && has_bit ier_rx_ie v)
clear_rx which v = ground arith

clear_others : (which v : ℕ) → changed clear_bit which v / 4 ≡ v / 4
clear_others which v = ground arith

set_ier-Sets :
    (tx_on rx_on : Bool) (v : ℕ) (s : Sio)
    → InStep s
    → has_bit ier_tx_ie v ≡ tx_on
    → has_bit ier_rx_ie v ≡ rx_on
    → v / 4 ≡ s.ier / 4
    → Returns (Sets tx_on rx_on s) (set_ier v s)
set_ier-Sets tx_on rx_on v s h tx rx others = mono (set_ier-InStep v s h) (λ old s' (e, ev, h').
    record {
      old = e;
      tx = ap (has_bit ier_tx_ie) ev ∙ tx;
      rx = ap (has_bit ier_rx_ie) ev ∙ rx;
      others = ap (λ w. w / 4) ev ∙ others;
      in_step = h';
    })

-- While the variable and the register are in step, `sio_enable` returns the old setting, switches on
-- the interrupts asked for and changes no other bit, and they are in step again.
pub enable-Sets :
    (which : ℕ) (s : Sio)
    → InStep s
    → Returns
        (Sets
          (has_bit sio_tx which || has_bit ier_tx_ie s.ier)
          (has_bit sio_rx which || has_bit ier_rx_ie s.ier)
          s)
        (enable which s)
unfolding enable
enable-Sets which s h =
    set_ier-Sets _ _ (changed set_bit which s.ier) s h (set_tx which s.ier) (set_rx which s.ier)
      (set_others which s.ier)

-- While the variable and the register are in step, `sio_disable` returns the old setting, switches
-- off the interrupts asked for and changes no other bit, and they are in step again.
pub disable-Sets :
    (which : ℕ) (s : Sio)
    → InStep s
    → Returns
        (Sets
          (not (has_bit sio_tx which) && has_bit ier_tx_ie s.ier)
          (not (has_bit sio_rx which) && has_bit ier_rx_ie s.ier)
          s)
        (disable which s)
unfolding disable
disable-Sets which s h =
    set_ier-Sets _ _ (changed clear_bit which s.ier) s h (clear_tx which s.ier)
      (clear_rx which s.ier) (clear_others which s.ier)
