-- ===== src/Kmem/State.antt =====
-- The state of kernel/kmem.c and the macros of its first part.
use os_team.Base.{
  ℕ, ◌+◌, ◌*◌, ◌%◌, ◌^◌, Bool, ◌==◌, Cmd, get, pure, halt, ◌>>=◌, if◌then◌else◌, out_of_fuel, none,
  some,
}
use os_team.Base.Chain.{Ptr, null, update, walk}

-- The globals of the module, and the two fields of the `blkinfo_t` at each address.
pub record Km : Type 0 where
  pub pages_of : Ptr → ℕ
  pub next_of : Ptr → Ptr
  pub free_pages : Ptr
  pub free_slices : Ptr
  pub n_pages : ℕ
  pub n_slices : ℕ
  pub initialized : Bool

abbrev pub page_size : ℕ
page_size = 4096

abbrev pub slice_size : ℕ
slice_size = 1024

-- `P2B`
abbrev pub p2b : ℕ → ℕ
p2b x = (x * page_size) % 2 ^ 32

-- `adjacent`: does the second block begin where the first one ends?
abbrev pub adjacent : Km → Ptr → Ptr → Bool
adjacent k first second = (first + p2b (k.pages_of first)) % 2 ^ 32 == second

-- The write through `pointer` or into `prev->next`: `prev` is NULL at the head of the list.
unfoldable pub set_link : Km → (prev target : Ptr) → Km
set_link k prev target =
    if prev == null
    then record k { free_pages = target }
    else record k { next_of = update k.next_of prev target }

-- A traversal of the free list. Every free block has a page or more, so that `n_pages + 1` rounds
-- are enough.
unfoldable pub seek : (Ptr → Bool) → Cmd Km (Ptr × Ptr)
seek go_on = do
  k ← get
  elim (walk k.next_of go_on (k.n_pages + 1) null k.free_pages) [
    | none ↦ halt out_of_fuel
    | some found ↦ pure found
  ]
