-- ===== src/Kmem/Pages.antt =====
-- The page half of kernel/kmem.c: adding a block, allocating and freeing pages.
use os_team.Base.{
  ℕ, ◌+◌, ◌-◌, ◌/◌, ◌%◌, ◌^◌, not, ◌&&◌, ltb, ◌==◌, if◌then◌else◌, add32, Cmd, pure, get, put,
  assert, ◌>>=◌, ◌>>◌,
}
use os_team.Base.Chain.{Ptr, null, update}
use os_team.Kmem.State.{Km, page_size, p2b, adjacent, set_link, seek}

-- `length & 0xfffff000`, where the low bits are not already clear.
abbrev pub round_down : ℕ → ℕ
round_down length = if length % page_size == 0 then length else length - length % page_size

-- The insertion of a block that is not the first one, behind the traversal.
insert_block : (block prev curr : Ptr) → Cmd Km (Unit {0})
insert_block block prev curr = do
  k ← get
  let linked = record k { next_of = update k.next_of block curr }
  assert (not (prev == null && curr == null))
  put (record (set_link linked prev block) { n_pages = add32 k.n_pages (k.pages_of block) })

pub add_block : (base length : ℕ) → Cmd Km (Unit {0})
unfolding insert_block
add_block base length = if ltb length page_size then pure tt else do
  k ← get
  let pages = round_down length / page_size
  let made = record k {
    pages_of = update k.pages_of base pages;
    next_of = update k.next_of base null;
  }
  if k.free_pages == null
      then put (record made { free_pages = base; n_pages = pages })
      else do put made; (prev, curr) ← seek (λ c. ltb c base); insert_block base prev curr

-- The block at `block`, found behind `prev`, taken whole or carved.
unfoldable pub take_pages : (count : ℕ) → (prev block : Ptr) → Km → Km
take_pages count prev block k =
    let rest = (k.n_pages + 2 ^ 32 - count) % 2 ^ 32 in
    if k.pages_of block == count
    then record (set_link k prev (k.next_of block)) { n_pages = rest }
    else let fragment = (block + p2b count) % 2 ^ 32 in
      let carved = record k {
        pages_of = update k.pages_of fragment (k.pages_of block - count);
        next_of = update k.next_of fragment (k.next_of block);
      } in
      record (set_link carved prev fragment) { n_pages = rest }

unfoldable pub page_alloc : ℕ → Cmd Km Ptr
page_alloc count = do
  k ← get
  assert k.initialized
  if ltb count 1 then pure null else do
    (prev, block) ← seek (λ b. ltb (k.pages_of b) count)
    if block == null then pure null else do put (take_pages count prev block k); pure block

-- The first half of the release: `used` is merged into its predecessor or linked in behind it. The
-- result is the block that `used` then names.
unfoldable pub merge_prev : (prev used : Ptr) → Km → Ptr × Km
merge_prev prev used k =
    if prev == null
    then (used, record k { next_of = update k.next_of used k.free_pages; free_pages = used })
    else if adjacent k prev used
    then (
      prev,
      record k { pages_of = update k.pages_of prev (add32 (k.pages_of prev) (k.pages_of used)) },
    )
    else (used, record k { next_of = update (update k.next_of used (k.next_of prev)) prev used })

-- The second half: the successor is merged into `used` if it follows it.
unfoldable pub merge_next : (used curr : Ptr) → Km → Km
merge_next used curr k =
    if curr == null
    then k
    else if adjacent k used curr
    then record k {
      next_of = update k.next_of used (k.next_of curr);
      pages_of = update k.pages_of used (add32 (k.pages_of used) (k.pages_of curr));
    }
    else k

unfoldable pub page_free_multi : (block : Ptr) (count : ℕ) → Cmd Km (Unit {0})
page_free_multi block count = do
  k ← get
  assert k.initialized
  if block == null then pure tt else do
    put (record k { pages_of = update k.pages_of block count })
    (prev, curr) ← seek (λ c. ltb c block)
    k ← get
    let (used, merged) = merge_prev prev block k
    let settled = merge_next used curr merged
    put (record settled { n_pages = add32 settled.n_pages count })

unfoldable pub page_free : Ptr → Cmd Km (Unit {0})
unfolding page_free_multi
page_free block = if block == null then pure tt else page_free_multi block 1
