-- ===== src/Kmem/Slices.antt =====
-- The slice half of kernel/kmem.c: 1024-byte quarters of a page.
use os_team.Base.{
  ℕ, zero, suc, ◌+◌, ◌-◌, ◌%◌, ◌^◌, not, ◌==◌, if◌then◌else◌, add32, Cmd, pure, get, put, assert,
  ◌>>=◌, ◌>>◌,
}
use os_team.Base.Chain.{Ptr, null, update}
use os_team.Kmem.State.{Km, slice_size}
use os_team.Kmem.Pages.{page_alloc}

pub slice_free : Ptr → Cmd Km (Unit {0})
slice_free block = do
  k ← get
  assert k.initialized
  put (record k {
    pages_of = update k.pages_of block slice_size;
    next_of = update k.next_of block k.free_slices;
    free_slices = block;
    n_slices = add32 k.n_slices 1;
  })

-- The body's `++n_slices`, after the one in `km_slice_free`.
count_slice : Cmd Km (Unit {0})
count_slice = do k ← get; put (record k { n_slices = add32 k.n_slices 1 })

-- `for( int i = 0; i < 4; ++i )`, with the rounds left.
carve_from : ℕ → Ptr → Cmd Km (Unit {0})
carve_from zero ptr = pure tt
carve_from (suc rounds) ptr =
    slice_free ptr >> (count_slice >> carve_from rounds (ptr + slice_size))

pub carve_slices : Cmd Km (Unit {0})
unfolding carve_from slice_free count_slice
carve_slices = do page ← page_alloc 1; assert (not (page == null)); carve_from 4 page

-- The end of `km_slice_alloc`: the first slice is unlinked and its 1024 bytes are cleared, which
-- clears its `blkinfo_t`.
take_slice : Cmd Km Ptr
take_slice = do
  k ← get
  assert (not (k.free_slices == null))
  put (record k {
    n_slices = (k.n_slices + 2 ^ 32 - 1) % 2 ^ 32;
    free_slices = k.next_of k.free_slices;
    next_of = update k.next_of k.free_slices null;
    pages_of = update k.pages_of k.free_slices 0;
  })
  pure k.free_slices

pub slice_alloc : Cmd Km Ptr
unfolding take_slice carve_slices
slice_alloc = do
  k ← get
  assert k.initialized
  if k.free_slices == null then carve_slices else pure tt
  take_slice
