-- ===== src/Text/Words/Stored.antt =====
-- A word stored in memory, and read again.
use os_team.Base.{ℕ, ◌+◌, ◌*◌, ◌/◌, ◌%◌, ◌^◌, ◌≤◌, ◌<◌, ◌≡◌, ◌⊎◌, inl, inr, refl, arith}
use os_team.Base.Chain.{Ptr}
use os_team.Text.Memory.{Memory}
use os_team.Text.Words.{load_word, store_word}

-- The four bytes of a number make up its 32 bits.
bytes-sum :
    (v : ℕ)
    → v % 2 ^ 8
        + v / 2 ^ 8 % 2 ^ 8 * 2 ^ 8
        + v / 2 ^ 16 % 2 ^ 8 * 2 ^ 16
        + v / 2 ^ 24 % 2 ^ 8 * 2 ^ 24
      ≡ v % 2 ^ 32
bytes-sum v = omega arith

at0 : (p : Ptr) (v : ℕ) (m : Memory) → store_word p v m p ≡ v % 2 ^ 8
unfolding store_word
at0 p v m = ground arith

at1 : (p : Ptr) (v : ℕ) (m : Memory) → store_word p v m (p + 1) ≡ v / 2 ^ 8 % 2 ^ 8
unfolding store_word
at1 p v m = ground arith

at2 : (p : Ptr) (v : ℕ) (m : Memory) → store_word p v m (p + 2) ≡ v / 2 ^ 16 % 2 ^ 8
unfolding store_word
at2 p v m = ground arith

at3 : (p : Ptr) (v : ℕ) (m : Memory) → store_word p v m (p + 3) ≡ v / 2 ^ 24 % 2 ^ 8
unfolding store_word
at3 p v m = ground arith

-- A word that is read where it was stored is its 32 bits.
pub load_word-store_word :
    (p : Ptr) (v : ℕ) (m : Memory) → load_word (store_word p v m) p ≡ v % 2 ^ 32
unfolding load_word
load_word-store_word p v m = rw (at0 p v m, at1 p v m, at2 p v m, at3 p v m) (bytes-sum v)

-- The store of a word changes no byte but its four.
pub store_word-outside :
    (p : Ptr) (v : ℕ) (m : Memory) (a : Ptr) → (a < p) ⊎ (p + 4 ≤ a) → store_word p v m a ≡ m a
unfolding store_word
store_word-outside p v m a (inl below) = ground arith
store_word-outside p v m a (inr above) = ground arith

-- A word that is apart from the one stored is as before.
pub load_word-store_apart :
    (p q : Ptr) (v : ℕ) (m : Memory)
    → (q + 4 ≤ p) ⊎ (p + 4 ≤ q)
    → load_word (store_word p v m) q ≡ load_word m q
unfolding load_word
load_word-store_apart p q v m (inl below) =
    rw
      (
        store_word-outside p v m q (inl (omega arith)),
        store_word-outside p v m (q + 1) (inl (omega arith)),
        store_word-outside p v m (q + 2) (inl (omega arith)),
        store_word-outside p v m (q + 3) (inl (omega arith)),
      )
      refl
load_word-store_apart p q v m (inr above) =
    rw
      (
        store_word-outside p v m q (inr (omega arith)),
        store_word-outside p v m (q + 1) (inr (omega arith)),
        store_word-outside p v m (q + 2) (inr (omega arith)),
        store_word-outside p v m (q + 3) (inr (omega arith)),
      )
      refl
