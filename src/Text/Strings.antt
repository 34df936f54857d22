-- ===== src/Text/Strings.antt =====
-- lib/strcpy.c, lib/strcat.c and lib/strcmp.c over a memory of bytes. `fuel` is the number of characters
-- that are looked at; `none` if no NUL is among them.
pub mod Appended
use os_team.Base.{
  ℕ, zero, suc, ◌+◌, ◌-◌, ◌%◌, ◌^◌, not, ◌&&◌, ltb, ◌==◌, if◌then◌else◌, Option, none, some,
}
use os_team.Base.Chain.{Ptr, update}
use os_team.Text.Memory.{Memory}
use os_team.Text.Words.{strlen}

-- `strcpy`
unfoldable pub strcpy : (fuel : ℕ) → Memory → (dst src : Ptr) → Option Memory
strcpy zero m dst src = none
strcpy (suc fuel) m dst src =
    let stored = update m dst (m src) in
    let rest = strcpy fuel stored (dst + 1) (src + 1) in if m src == 0 then some stored else rest

-- `strcat`; its first loop ends where that of `strlen` does.
unfoldable pub strcat : (fuel : ℕ) → Memory → (dst src : Ptr) → Option Memory
strcat fuel m dst src = elim (strlen fuel m dst) [
  | none ↦ none
  | some len ↦ strcpy fuel m (dst + len) src
]

-- A `char` as an `int`.
abbrev promoted : ℕ → ℕ
promoted c = if ltb c 128 then c else c + (2 ^ 32 - 256)

-- `strcmp`, the 32 bits of its result.
unfoldable pub strcmp : (fuel : ℕ) → Memory → (s1 s2 : Ptr) → Option ℕ
strcmp zero m s1 s2 = none
strcmp (suc fuel) m s1 s2 =
    let rest = strcmp fuel m (s1 + 1) (s2 + 1) in
    if not (m s1 == 0) && (m s1 == m s2)
    then rest
    else some ((promoted (m s1) + 2 ^ 32 - promoted (m s2)) % 2 ^ 32)
