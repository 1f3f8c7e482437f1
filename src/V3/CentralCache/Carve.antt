-- ===== src/V3/CentralCache/Carve.antt =====
-- `createSpan`: the span has room for a block, and its blocks are linked in address order.
use native.Mathlib.Nat.{le-div_iff_mul-le, lt-div-mul-add}
use my_memory_pool.Prelude.{
  Ptr, update, ℕ, zero, suc, ◌+◌, ◌*◌, ◌/◌, ◌≤◌, ◌<◌, ◌≡◌, refl, false, arith, List, [], ◌∷◌,
}
use my_memory_pool.V3.SizeClass.{max_bytes, get_size}
use my_memory_pool.V3.SizeClass.Laws.{get_size_multiple, max_bytes_largest}
use my_memory_pool.V3.World.{Platform, page_size}
use my_memory_pool.Prelude.Blocks.{Blocks, end, link, has}
use my_memory_pool.V3.CentralCache.{link_blocks, target_bytes, span_pages}

-- the addresses of the blocks from number `i` on
abbrev pub block_addresses : (count i : ℕ) → Ptr → ℕ → List Ptr
block_addresses zero i start block_size = []
block_addresses (suc count) i start block_size =
    (start + i * block_size) ∷ block_addresses count (i + 1) start block_size

module _ (start block_size : ℕ) (pos : 0 < block_size) where
  -- A block before number `i` is none of those from `i` on.
  before_fresh :
      (count i j : ℕ)
      → j < i
      → has (start + j * block_size) (block_addresses count i start block_size) ≡ false
  before_fresh zero i j h = refl
  before_fresh (suc count) i j h = ground (arith, before_fresh count (i + 1) j (omega arith), apart)
    where
      apart : start + j * block_size < start + i * block_size
      apart = grind arith

  -- The loop writes no block before number `i`.
  link_blocks_below :
      (left i j : ℕ) (word : Ptr → Ptr)
      → j < i
      → link_blocks left i start block_size word (start + j * block_size)
        ≡ word (start + j * block_size)
  unfolding link_blocks
  link_blocks_below zero i j word h = ground (arith, apart)
    where
      apart : start + j * block_size < start + i * block_size
      apart = grind arith
  link_blocks_below (suc left) i j word h = ground (
    arith,
    apart,
    link_blocks_below left (i + 1) j
        (update word (start + i * block_size) (start + (i + 1) * block_size)) (omega arith),
  )
    where
      apart : start + j * block_size < start + i * block_size
      apart = grind arith

  -- For a span that does not begin at nullptr and blocks that are not empty, the loop of
  -- `createSpan` with `left` links to go at the block `i` makes a list from there through `left`
  -- more blocks in address order, all different, and ends it at the last one.
  pub link_blocks-Blocks :
      (left i : ℕ) (word : Ptr → Ptr)
      → 0 < start
      → Blocks
          (link_blocks left i start block_size word)
          (start + i * block_size)
          (block_addresses (suc left) i start block_size)
  unfolding link_blocks
  link_blocks-Blocks zero i word some = link (omega arith) (ground arith) refl end
  link_blocks-Blocks (suc left) i word some =
      link (omega arith)
        (ground (
          arith,
          link_blocks_below left (i + 1) i
              (update word (start + i * block_size) (start + (i + 1) * block_size)) (omega arith),
        ))
        (before_fresh (suc left) (i + 1) i (omega arith))
        (link_blocks-Blocks left (i + 1)
          (update word (start + i * block_size) (start + (i + 1) * block_size)) some)

module _ (os : Platform) where
  page_pos : 0 < page_size os
  unfolding page_size
  page_pos = ground arith

  target_ample :
      (block_size : ℕ)
      → block_size ≤ max_bytes
      → (block_size * 8 ≤ target_bytes os block_size) × (page_size os ≤ target_bytes os block_size)
  unfolding target_bytes
  target_ample block_size h = ground arith

  half_kept : (target page : ℕ) → 0 < page → page ≤ target → target ≤ target / page * page * 2
  half_kept target page pos le =
      let some : 1 * page ≤ target / page * page =
        grind (arith, (le-div_iff_mul-le {x = 1} {y = target} pos).1) in
      omega (arith, lt-div-mul-add {a = target} pos)

  -- The pages asked for hold four blocks of any class.
  span_pages_room :
      (block_size : ℕ)
      → block_size ≤ max_bytes
      → block_size * 4 ≤ span_pages os block_size * page_size os
  unfolding span_pages
  span_pages_room block_size h =
      let (ample, page) = target_ample block_size h in
      let target = target_bytes os block_size in
      let half = half_kept target (page_size os) page_pos page in ground (arith, half)

  -- A span of at least the pages that `createSpan` asks for has room for four blocks, for every
  -- class and page size.
  pub create_span_room :
      (index pages : ℕ)
      → index < 56
      → span_pages os (get_size index) ≤ pages
      → 4 ≤ pages * page_size os / get_size index
  create_span_room index pages h le = (le-div_iff_mul-le (get_size_multiple index h).1).1 (
      room (span_pages os (get_size index)) (page_size os) (get_size index)
        (span_pages_room (get_size index) (max_bytes_largest index h)) le)
    where
      room : (n page size : ℕ) → size * 4 ≤ n * page → n ≤ pages → 4 * size ≤ pages * page
      room n page size a b = grind arith
