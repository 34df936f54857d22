-- ===== src/Text/Words.antt =====
-- Words in memory, and lib/blkmov.c and lib/strlen.c over the bytes.
pub mod Stored
use os_team.Base.{
  ℕ, zero, suc, ◌+◌, ◌-◌, ◌*◌, ◌/◌, ◌%◌, ◌^◌, Bool, true, false, not, ◌&&◌, ◌||◌, ltb, ◌==◌,
  if◌then◌else◌, Option, none, some,
}
use os_team.Base.Chain.{Ptr, update}
use os_team.Text.Memory.{Memory, memmove}

-- A `uint32_t` in memory, the low byte first.
unfoldable pub load_word : Memory → Ptr → ℕ
load_word m p = m p + m (p + 1) * 2 ^ 8 + m (p + 2) * 2 ^ 16 + m (p + 3) * 2 ^ 24

unfoldable pub store_word : Ptr → ℕ → Memory → Memory
store_word p v m =
    update
      (update (update (update m p (v % 2 ^ 8)) (p + 1) (v / 2 ^ 8 % 2 ^ 8)) (p + 2)
        (v / 2 ^ 16 % 2 ^ 8))
      (p + 3) (v / 2 ^ 24 % 2 ^ 8)

-- The loops of `blkmov` over aligned words, the second from the ends of the two areas.
unfoldable pub copy_words : (dest source : Ptr) (len : ℕ) → Memory → Memory
copy_words dest source zero m = m
copy_words dest source (suc len) m =
    copy_words (dest + 4) (source + 4) len (store_word dest (load_word m source) m)

unfoldable pub copy_words_down : (dest source : Ptr) (len : ℕ) → Memory → Memory
copy_words_down dest source zero m = m
copy_words_down dest source (suc len) m =
    copy_words_down (dest - 4) (source - 4) len (store_word (dest - 4) (load_word m (source - 4)) m)

-- `blkmov`
unfoldable pub blkmov : (dst src : Ptr) (len : ℕ) → Memory → Memory
blkmov dst src len m =
    if not (dst % 4 == 0) || (not (src % 4 == 0) || not (len % 4 == 0))
    then memmove dst src len m
    else if ltb src dst && ltb dst ((src + 4 * (len / 4)) % 2 ^ 32)
    then copy_words_down (dst + 4 * (len / 4)) (src + 4 * (len / 4)) (len / 4) m
    else copy_words dst src (len / 4) m

-- `strlen`, with the characters that are looked at; `none` if none of them is a NUL.
unfoldable pub strlen : (fuel : ℕ) → Memory → Ptr → Option ℕ
strlen zero m str = none
strlen (suc fuel) m str =
    let rest = strlen fuel m (str + 1) in
    if m str == 0 then some 0 else elim rest [ none ↦ none | some n ↦ some (n + 1) ]
