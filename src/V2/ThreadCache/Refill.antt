-- ===== src/V2/ThreadCache/Refill.antt =====
-- `allocate` for a class with no free block at all: one mapping becomes its stack of blocks.
use my_memory_pool.Prelude.{
  null, ℕ, ◌-◌, ◌*◌, ◌/◌, ◌≤◌, ◌<◌, ◌≡◌, ◌≢◌, false, arith, none, [], ◌==◌, ltb, ne→==, ==_refl,
  sym, ◌∙◌, size_max,
}
use my_memory_pool.Prelude.Command.{Returns, returns, bind}
use my_memory_pool.Prelude.Assoc.{lower_bound}
use my_memory_pool.Prelude.Blocks.{end, head_null}
use my_memory_pool.V2.SizeTable.{max_bytes, get_size}
use my_memory_pool.V3.CentralCache.Carve.{block_addresses}
use my_memory_pool.V2.SizeClass.{get_index}
use my_memory_pool.V2.SizeClass.Agreement.{small_class}
use my_memory_pool.V2.World.{World, Platform, and_then}
use my_memory_pool.V2.World.Rules.{load-ok}
use my_memory_pool.V2.PageCache.{page_size}
use my_memory_pool.V2.CentralCache.{min_span_pages}
use my_memory_pool.V2.CentralCache.Refill.{fetch_range-Carved}
use my_memory_pool.V2.ThreadCache.{ThreadCache, fetch_from_central_cache, allocate_small, allocate}
use my_memory_pool.V2.ThreadCache.Cut.{Free}
use my_memory_pool.V2.ThreadCache.Stack.{count_links-null}

module _ (os : Platform) (fuel : ℕ) where
  -- A request of 1 to MAX_BYTES bytes for a class of blocks of at most 16384 bytes, with no free
  -- block on the lists and no free span of eight pages or more: if the system grants eight pages,
  -- the first block is handed out, and all others are central in address order. The thread keeps
  -- none, since one block comes at a time.
  pub allocate-Free :
      (t : ThreadCache) (size start : ℕ) (w : World)
      → 0 < size
      → size ≤ max_bytes
      → 0 < fuel
      → get_size (get_index size) ≤ 16384
      → Free (get_index size) t w [] []
      → lower_bound min_span_pages w.free_spans ≡ none
      → os.mmap w.system_calls (min_span_pages * page_size) ≡ start
      → start ≢ null
      → start ≢ size_max
      → Returns
          (λ (r, t') w'.
            (r ≡ start)
            × Free (get_index size) t' w' [] (
                block_addresses
                  (min_span_pages * page_size / get_size (get_index size) - 1)
                  1
                  start
                  (get_size (get_index size))))
          (allocate os fuel t size w)
  unfolding allocate allocate_small fetch_from_central_cache
  allocate-Free t size start w pos small enough class_size f none_free answer some_start valid =
      let index : ℕ = get_index size in
      let given : (size == 0) ≡ false = ground arith in
      let not_large : ltb max_bytes size ≡ false = ground arith in
      rw (given, not_large, head_null f.own)
        (bind
          (fetch_range-Carved os index start w (small_class size small) class_size
            (head_null f.central) none_free answer some_start valid)
          (λ r w' (same, c).
            let some_r : r ≢ null = λ h. some_start (sym same ∙ h) in
            let cleared : w'.word r ≡ null = rw same c.cleared in
            rw
              (
                ne→== r null some_r,
                load-ok w' r some_r,
                cleared,
                and_then,
                count_links-null fuel 0 w' enough,
                and_then,
              )
              (returns (
                same,
                record {
                  own = rw (==_refl index) end;
                  counted = rw (==_refl index) (omega (arith, f.counted));
                  bounded = f.bounded;
                  central = c.blocks;
                  apart = λ a h. ground arith;
                },
              ))))
