-- ===== src/Sio/Reading.antt =====
-- sio_readc and sio_read of kernel/sio.c.
use mathlib.Core.List.{append_assoc, append-nil}
use mathlib.Core.Path.{subst}
use os_team.Base.{
  ℕ, zero, suc, ◌+◌, ◌%◌, ◌≤◌, ◌≡◌, ◌⊎◌, refl, sym, ap, ◌∙◌, inl, inr, true, false, ltb, ◌==◌,
  Option, none, some, List, [], ◌∷◌, ◌++◌, map, length, length-append, length-map, nil_of_length,
  arith, Cmd, pure, ◌>>◌, ◌>>=◌, Returns, returns, bind, mono,
}
use os_team.Sio.{Sio, buf_size, store_in, copy_in, read, readc}
use os_team.Sio.Input.{Held, store_in-Held, taken, taken-Held, reset_in-Held, take_in-ok}

-- Nothing was there, or the first character was read and the rest is left.
abbrev pub Pops : List ℕ → Option ℕ → Sio → Type 0
Pops cs got s' =
    ((cs ≡ []) × (got ≡ none) × Held s' [])
    ⊎ ((c : ℕ) × (rest : List ℕ) × (cs ≡ c ∷ rest) × (got ≡ some c) × Held s' rest)

-- `sio_readc` takes the first character out of the buffer, or reports that there is none.
pub readc-Held : (s : Sio) (cs : List ℕ) → Held s cs → Returns (Pops cs) (readc s)
unfolding readc
readc-Held s [] h =
    let gone : ltb 0 s.incount ≡ false = ground (arith, h.count) in
    simp gone (returns (inl (refl, refl, h)))
readc-Held s (c ∷ cs) h =
    let some_left : ltb 0 s.incount ≡ true = ground (arith, h.count) in
    simp (some_left, take_in-ok s c cs h)
      (returns (inr (c, cs, refl, refl, reset_in-Held (taken s) cs (taken-Held s c cs h))))

-- The characters read and those left make up what the buffer held; as many were read as there is room
-- for.
pub record Reads (room : ℕ) (cs got : List ℕ) (s' : Sio) : Type 0 where
  pub left : List ℕ
  pub all : got ++ left ≡ cs
  pub most : (length got ≡ room) ⊎ (left ≡ [])
  pub few : length got ≤ room
  pub held : Held s' left

copy_in-Reads :
    (room : ℕ) (s : Sio) (cs : List ℕ)
    → Held s cs
    → Returns (λ got s'. Reads room cs got s' × (s'.inlast ≡ s.inlast)) (copy_in room s)
unfolding copy_in
copy_in-Reads zero s cs h =
    returns (record { left = cs; all = refl; most = inl refl; few = omega arith; held = h }, refl)
copy_in-Reads (suc room) s [] h =
    let gone : (s.incount == 0) ≡ true = ground (arith, h.count) in
    simp gone (
      returns
        (record { left = []; all = refl; most = inr refl; few = omega arith; held = h }, refl))
copy_in-Reads (suc room) s (c ∷ cs) h =
    let some_left : (s.incount == 0) ≡ false = ground (arith, h.count) in
    let inside : ltb buf_size (s.innext + 1) ≡ false = ground (arith, h.last, h.inside) in
    simp (some_left, take_in-ok s c cs h, inside)
      (bind (copy_in-Reads room (taken s) cs (taken-Held s c cs h)) (λ got s' (r, last). returns (
        record {
          left = r.left;
          all = ap (λ l. c ∷ l) r.all;
          most = elim r.most [ inl full ↦ inl (omega arith) | inr gone ↦ inr gone ];
          few = omega (arith, r.few);
          held = r.held;
        },
        last,
      )))

-- `sio_read` takes characters from the front of the buffer, in order, until the user's buffer is full
-- or none is left.
pub read-Reads :
    (length : ℕ) (s : Sio) (cs : List ℕ) → Held s cs → Returns (Reads length cs) (read length s)
unfolding read
read-Reads room s [] h =
    let gone : ltb s.incount 1 ≡ true = ground (arith, h.count) in
    simp gone
      (returns (record { left = []; all = refl; most = inr refl; few = omega arith; held = h }))
read-Reads room s (c ∷ cs) h =
    let some_left : ltb s.incount 1 ≡ false = ground (arith, h.count) in
    simp some_left (
      bind (copy_in-Reads room s (c ∷ cs) h) (λ got s' (r, _). returns (record {
        left = r.left;
        all = r.all;
        most = r.most;
        few = r.few;
        held = reset_in-Held s' r.left r.held;
      })))

-- The receiver stores one character after another.
unfoldable pub store_all : List ℕ → Cmd Sio (Unit {0})
store_all [] = pure tt
store_all (ch ∷ chs) = store_in ch >> store_all chs

store_all-Held :
    (chs : List ℕ) (s : Sio) (cs : List ℕ)
    → Held s cs
    → s.inlast + length chs ≤ buf_size
    → Returns
        (λ _ s'. Held s' (cs ++ map (λ ch. ch % 256) chs) × (s'.inlast ≡ s.inlast + length chs))
        (store_all chs s)
unfolding store_all
store_all-Held [] s cs h fits =
    returns (subst (λ (l : List ℕ). Held s l) (sym (append-nil cs)) h, omega arith)
store_all-Held (ch ∷ chs) s cs h fits =
    bind (store_in-Held ch s cs h (omega arith)) (λ _ s1 (h1, one).
      mono (store_all-Held chs s1 (cs ++ ch % 256 ∷ []) h1 (omega (arith, one))) (λ _ s2 (h2, more).
        (
          subst (λ (l : List ℕ). Held s2 l)
              (append_assoc cs (ch % 256 ∷ []) (map (λ c. c % 256) chs)) h2,
          omega (arith, one, more),
        )))

-- Characters that the receiver stores, after its mapping of CR to LF, in an empty input buffer with room
-- for them are what `sio_read` returns to a user's buffer that has room for them too, as bytes and in
-- order, and leave the input buffer empty.
pub store_all-read :
    (chs : List ℕ) (room : ℕ) (s : Sio)
    → Held s []
    → s.inlast + length chs ≤ buf_size
    → length chs ≤ room
    → Returns
        (λ got s'. (got ≡ map (λ ch. ch % 256) chs) × Held s' [])
        ((store_all chs >>= λ _. read room) s)
store_all-read chs room s h fits long =
    let stored = map (λ ch. ch % 256) chs in
    bind (store_all-Held chs s [] h fits) (λ _ s1 (h1, _).
      mono (read-Reads room s1 stored h1) (λ got s2 r.
        let sum : length got + length r.left ≡ length chs =
          sym (length-append got r.left) ∙ ap length r.all ∙ length-map (λ ch. ch % 256) chs in
        let gone : r.left ≡ [] = elim r.most [
          | inl full ↦ nil_of_length r.left (omega arith)
          | inr gone ↦ gone
        ] in
        (
          sym (append-nil got) ∙ ap (λ l. got ++ l) (sym gone) ∙ r.all,
          subst (λ (l : List ℕ). Held s2 l) gone r.held,
        )))
