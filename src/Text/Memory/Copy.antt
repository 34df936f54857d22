-- ===== src/Text/Memory/Copy.antt =====
-- What the routines leave at each address.
use os_team.Base.{
  ℕ, zero, suc, ◌+◌, ◌-◌, ◌%◌, ◌^◌, ◌≤◌, ◌<◌, ◌≡◌, ◌⊎◌, inl, inr, ◌∙◌, Bool, true, false, ltb, leb,
  ◌==◌, ◌&&◌, if◌then◌else◌, arith, Bool-cases, eq_of_==,
}
use os_team.Base.Chain.{Ptr, update}
use os_team.Text.Memory.{Memory, memset, memcpy, copy_down, memmove}

-- The address is in the area of `len` bytes from `base` on.
abbrev pub in_area : Ptr → ℕ → Ptr → Bool
in_area base len a = leb base a && ltb a (base + len)

-- The memory in which the area holds what `m` has from `src` on.
abbrev pub copied : (dst src : Ptr) (len : ℕ) → Memory → Memory
copied dst src len m a = if in_area dst len a then m (src + (a - dst)) else m a

-- `memset` fills the area with the low byte of the value, and changes nothing else.
pub memset-fills :
    (bp : Ptr) (len value : ℕ) (m : Memory) (a : Ptr)
    → memset bp len value m a ≡ (if in_area bp len a then value % 256 else m a)
unfolding memset
memset-fills bp zero value m a = ground arith
memset-fills bp (suc len) value m a =
    ground (arith, memset-fills (bp + 1) len value (update m bp (value % 256)) a)

-- A byte copied forwards, with the rest of the area left to copy.
step :
    (dst src len : ℕ) (m : Memory) (a : Ptr)
    → (dst ≤ src) ⊎ (src + suc len ≤ dst)
    → copied (dst + 1) (src + 1) len (update m dst (m src)) a ≡ copied dst src (suc len) m a
step dst src len m a h = elim (Bool-cases (in_area (dst + 1) len a)) [
  | inl inside ↦
      let whole : in_area dst (suc len) a ≡ true = ground arith in
      let apart : (src + 1 + (a - (dst + 1)) == dst) ≡ false = ground arith in
      let same : src + 1 + (a - (dst + 1)) ≡ src + (a - dst) = ground arith in
      rw (inside, whole, apart, same)
  | inr outside ↦ elim (Bool-cases (a == dst)) [
    | inl eq ↦
        let whole : in_area dst (suc len) a ≡ true = ground (arith, eq_of_== a dst eq) in
        let first : src + (a - dst) ≡ src = omega (arith, eq_of_== a dst eq) in
        rw (outside, eq, whole, first)
    | inr ne ↦ let whole : in_area dst (suc len) a ≡ false = ground arith in rw (outside, ne, whole)
  ]
]

pub memcpy-copied :
    (dst src : Ptr) (len : ℕ) (m : Memory) (a : Ptr)
    → (dst ≤ src) ⊎ (src + len ≤ dst)
    → memcpy dst src len m a ≡ copied dst src len m a
unfolding memcpy
memcpy-copied dst src zero m a h = ground arith
memcpy-copied dst src (suc len) m a (inl below) =
    memcpy-copied (dst + 1) (src + 1) len (update m dst (m src)) a (inl (omega arith))
    ∙ step dst src len m a (inl below)
memcpy-copied dst src (suc len) m a (inr above) =
    memcpy-copied (dst + 1) (src + 1) len (update m dst (m src)) a (inr (omega arith))
    ∙ step dst src len m a (inr above)

-- A byte copied backwards, with the rest of the area left to copy.
step_down :
    (dst src len : ℕ) (m : Memory) (a : Ptr)
    → src ≤ dst
    → copied dst src len (update m (dst + len) (m (src + len))) a ≡ copied dst src (suc len) m a
step_down dst src len m a h = elim (Bool-cases (in_area dst len a)) [
  | inl inside ↦
      let whole : in_area dst (suc len) a ≡ true = ground arith in
      let apart : (src + (a - dst) == dst + len) ≡ false = ground arith in rw (inside, whole, apart)
  | inr outside ↦ elim (Bool-cases (a == dst + len)) [
    | inl eq ↦
        let whole : in_area dst (suc len) a ≡ true = ground (arith, eq_of_== a (dst + len) eq) in
        let last : src + (a - dst) ≡ src + len = omega (arith, eq_of_== a (dst + len) eq) in
        rw (outside, eq, whole, last)
    | inr ne ↦ let whole : in_area dst (suc len) a ≡ false = ground arith in rw (outside, ne, whole)
  ]
]

copy_down-copied :
    (dst src : Ptr) (len : ℕ) (m : Memory) (a : Ptr)
    → src ≤ dst
    → copy_down (dst + len) (src + len) len m a ≡ copied dst src len m a
unfolding copy_down
copy_down-copied dst src zero m a h = ground arith
copy_down-copied dst src (suc len) m a h =
    let last : dst + suc len - 1 ≡ dst + len = omega arith in
    let last' : src + suc len - 1 ≡ src + len = omega arith in
    rw (last, last')
      (copy_down-copied dst src len (update m (dst + len) (m (src + len))) a h
        ∙ step_down dst src len m a h)

-- When the source ends below the top of the address space, `memmove` leaves in the area what the memory had from the source on before, also where the two areas
-- overlap, and changes nothing else.
pub memmove-copied :
    (dst src : Ptr) (len : ℕ) (m : Memory) (a : Ptr)
    → src + len < 2 ^ 32
    → memmove dst src len m a ≡ copied dst src len m a
unfolding memmove
memmove-copied dst src len m a fits =
    let fit : (src + len) % 2 ^ 32 ≡ src + len = omega arith in
    elim (Bool-cases (ltb src dst && ltb dst (src + len))) [
      | inl overlap ↦ rw (fit, overlap) (copy_down-copied dst src len m a (ground arith))
      | inr apart ↦ elim (Bool-cases (leb dst src)) [
        | inl below ↦ rw (fit, apart) (memcpy-copied dst src len m a (inl (ground arith)))
        | inr above ↦ rw (fit, apart) (memcpy-copied dst src len m a (inr (ground arith)))
      ]
    ]
