-- ===== src/Tests/Kmem.antt =====
-- The page allocator of kernel/kmem.c on a free list of two blocks, of one and of three pages.
use os_team.Base.{ℕ, suc, ◌≢◌, refl, arith, true, ◌==◌, if◌then◌else◌, [], ◌∷◌, Returns}
use os_team.Base.Chain.{null}
use os_team.Kmem.State.{Km}
use os_team.Base.{◌≡◌, ◌⊎◌}
use os_team.Kmem.Pages.{page_alloc, page_free_multi}
use os_team.Kmem.Blocks.{between_bounds}
use os_team.Kmem.Placed.{Released, InUse}
use os_team.Kmem.Release.{page_free_multi-Released}
use os_team.Kmem.RoundTrip.{Restored, page_alloc-page_free_multi}
use os_team.Kmem.Pool.{Pool}
use os_team.Kmem.Alloc.{Allocates, page_alloc-Allocates}

abbrev pub km1 : Km
km1 = record {
  pages_of = λ a. if a == 0x100000 then 1 else if a == 0x200000 then 3 else 0;
  next_of = λ a. if a == 0x100000 then 0x200000 else null;
  free_pages = 0x100000;
  free_slices = null;
  n_pages = 4;
  n_slices = 0;
  initialized = true;
}

no_address : (a : ℕ) → suc a ≢ null
no_address a e = cc

pub km1-Pool : Pool km1 (0x100000 ∷ 0x200000 ∷ [])
km1-Pool = record {
  chain = (refl, no_address 0xfffff, refl, (refl, no_address 0x1fffff, refl, refl));
  spaced = (omega arith, omega arith, (omega arith, omega arith, tt));
  count = refl;
  ready = refl;
}

-- Two pages are carved from the second block.
page_alloc-Allocates_example :
    Returns (Allocates km1 (0x100000 ∷ 0x200000 ∷ []) 2) (page_alloc 2 km1)
page_alloc-Allocates_example =
    page_alloc-Allocates km1 (0x100000 ∷ 0x200000 ∷ []) 2 km1-Pool (omega arith)

-- The page behind the first block, which it touches.
second_in_use : InUse km1 (0x100000 ∷ 0x200000 ∷ []) 0x101000 1
second_in_use a h = let bounds = between_bounds 0x101000 0x102000 a h in ground (arith, bounds)

page_free_multi-Released_example :
    Returns (Released km1 (0x100000 ∷ 0x200000 ∷ []) 0x101000 1) (page_free_multi 0x101000 1 km1)
page_free_multi-Released_example =
    page_free_multi-Released km1 (0x100000 ∷ 0x200000 ∷ []) 0x101000 1 km1-Pool
      (no_address 0x100fff) (omega arith) (omega arith) second_in_use

page_alloc-page_free_multi_example :
    Returns
      (λ block k'.
        (block ≡ null)
        ⊎ Returns (Restored km1 (0x100000 ∷ 0x200000 ∷ [])) (page_free_multi block 2 k'))
      (page_alloc 2 km1)
page_alloc-page_free_multi_example =
    page_alloc-page_free_multi km1 (0x100000 ∷ 0x200000 ∷ []) 2 km1-Pool (omega arith)
