-- ===== src/Kmem.antt =====
-- kernel/kmem.c, the kernel's page and slice allocator.
pub mod State
pub mod Pages
pub mod Slices
pub mod Init
pub mod Blocks
pub mod Pool
pub mod Take
pub mod Alloc
pub mod Merge
pub mod Free
pub mod Placed
pub mod Release
pub mod RoundTrip
