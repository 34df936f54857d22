-- ===== src/Text/Memory.antt =====
-- lib/memset.c, lib/memclr.c, lib/memcpy.c and lib/memmove.c, over a memory of bytes.
pub mod Copy
use os_team.Base.{ℕ, zero, suc, ◌+◌, ◌-◌, ◌%◌, ◌^◌, ltb, ◌&&◌, if◌then◌else◌}
use os_team.Base.Chain.{Ptr, update}

abbrev pub Memory : Type 0
Memory = Ptr → ℕ

-- `memset`; the value is stored in a byte.
unfoldable pub memset : (bp : Ptr) (len value : ℕ) → Memory → Memory
memset bp zero value m = m
memset bp (suc len) value m = memset (bp + 1) len value (update m bp (value % 256))

-- `memclr`
unfoldable pub memclr : (dest : Ptr) (len : ℕ) → Memory → Memory
memclr dest zero m = m
memclr dest (suc len) m = memclr (dest + 1) len (update m dest 0)

-- `memcpy`, and the second loop of `memmove`
unfoldable pub memcpy : (dest source : Ptr) (len : ℕ) → Memory → Memory
memcpy dest source zero m = m
memcpy dest source (suc len) m = memcpy (dest + 1) (source + 1) len (update m dest (m source))

-- The first loop of `memmove`, from the ends of the two areas.
unfoldable pub copy_down : (dest source : Ptr) (len : ℕ) → Memory → Memory
copy_down dest source zero m = m
copy_down dest source (suc len) m =
    copy_down (dest - 1) (source - 1) len (update m (dest - 1) (m (source - 1)))

-- `memmove`
unfoldable pub memmove : (dst src : Ptr) (len : ℕ) → Memory → Memory
memmove dst src len m =
    if ltb src dst && ltb dst ((src + len) % 2 ^ 32)
    then copy_down (dst + len) (src + len) len m
    else memcpy dst src len m
