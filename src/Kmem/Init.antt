-- ===== src/Kmem/Init.antt =====
-- `km_init` of kernel/kmem.c: the free list that is made of the BIOS memory map.
use os_team.Base.{
  ℕ, ◌+◌, ◌-◌, ◌/◌, ◌%◌, ◌^◌, Bool, true, false, not, ◌&&◌, ◌||◌, List, [], ◌∷◌, Option, none, some,
  ltb, leb, ◌==◌, if◌then◌else◌, Cmd, pure, get, put, ◌>>=◌, ◌>>◌,
}
use os_team.Base.Chain.{null}
use os_team.Kmem.State.{Km}
use os_team.Kmem.Pages.{add_block}

-- `region_t`, one entry of the map that the boot code leaves at `MMAP_ADDR`.
pub record Region : Type 0 where
  pub base : ℕ
  pub length : ℕ
  pub type : ℕ
  pub acpi : ℕ

abbrev pub low_cutoff : ℕ
low_cutoff = 0x100000

abbrev pub high_cutoff : ℕ
high_cutoff = 0x40000000

-- The tests of the ACPI bits 0 and 1 and of the region's type.
pub is_usable : Region → Bool
is_usable r = not (r.acpi % 2 == 0) && (r.acpi / 2 % 2 == 0) && (r.type == 1)

-- The end point after the test of the high cutoff; `none` is `continue`.
pub clip_high : (base endpt : ℕ) → Option ℕ
clip_high base endpt =
    if leb high_cutoff base || leb high_cutoff endpt
    then (if ltb high_cutoff base then none else some high_cutoff)
    else some endpt

pub clip_low : (base endpt : ℕ) → Option ℕ
clip_low base endpt =
    if ltb base low_cutoff || ltb endpt low_cutoff
    then (if ltb endpt low_cutoff then none else some low_cutoff)
    else some base

-- The base and the length of what `add_block` is given of a region, if anything.
pub usable_part : Region → Option (ℕ × ℕ)
unfolding is_usable clip_high clip_low
usable_part r =
    if is_usable r
    then elim (clip_high r.base ((r.base + r.length) % 2 ^ 64)) [
      | none ↦ none
      | some endpt ↦ elim (clip_low r.base endpt) [
        | none ↦ none
        | some base ↦ some (base % 2 ^ 32, (endpt + 2 ^ 64 - base) % 2 ^ 64 % 2 ^ 32)
      ]
    ]
    else none

add_region : Region → Cmd Km (Unit {0})
unfolding usable_part
add_region r = elim (usable_part r) [ none ↦ pure tt | some (base, length) ↦ add_block base length ]

pub add_regions : List Region → Cmd Km (Unit {0})
unfolding add_region
add_regions [] = pure tt
add_regions (r ∷ rs) = add_region r >> add_regions rs

abbrev clear : Km → Km
clear k = record k {
  free_pages = null;
  free_slices = null;
  n_pages = 0;
  n_slices = 0;
  initialized = false;
}

finish_init : Cmd Km (Unit {0})
finish_init = do k ← get; put (record k { initialized = true })

-- The list is the map, and its length the count that the boot code stores; a count below 1 is the
-- empty list.
pub init : List Region → Cmd Km (Unit {0})
unfolding add_regions finish_init
init [] k = put (clear k) k
init (r ∷ rs) k = (add_regions (r ∷ rs) >> finish_init) (clear k)
