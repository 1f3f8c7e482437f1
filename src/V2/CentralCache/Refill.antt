-- ===== src/V2/CentralCache/Refill.antt =====
-- `fetchRange` of an empty class: one mapping is cut into blocks.
use native.Mathlib.Nat.{le-div_iff_mul-le}
use my_memory_pool.Prelude.{
  Ptr, null, update, ℕ, zero, suc, ◌+◌, ◌-◌, ◌*◌, ◌/◌, ◌≤◌, ◌<◌, ◌≡◌, refl, ◌≢◌, true, false, arith,
  none, [], ◌∷◌, ◌++◌, leb, ltb, ne→==, ==_refl, subst, ap, length, size_max,
}
use my_memory_pool.Prelude.Command.{Returns, returns, bind}
use my_memory_pool.Prelude.Assoc.{lower_bound}
use my_memory_pool.Prelude.Blocks.{Blocks, frame}
use my_memory_pool.Prelude.Blocks.Join.{rest, first_fresh}
use my_memory_pool.V2.SizeTable.{free_list_size, get_size}
use my_memory_pool.V2.SizeTable.Laws.{free_list_size_lem, get_size_multiple}
use my_memory_pool.V3.CentralCache
use my_memory_pool.V3.CentralCache.Carve.{block_addresses, link_blocks-Blocks}
use my_memory_pool.V2.World.{World, Platform, and_then}
use my_memory_pool.V2.World.Rules.{load-ok, store-ok}
use my_memory_pool.V2.PageCache.{page_size}
use my_memory_pool.V2.PageCache.Fresh.{mapped, allocate_span-mapped}
use my_memory_pool.V2.CentralCache.{
  min_span_pages, link_blocks, span_pages, carve_span, fetch_from_page_cache, fetch_new,
  fetch_range,
}

-- With the write that ends the list, the loop does what that of version 3 does.
link_blocks_same :
    (left i start size : ℕ) (word : Ptr → Ptr)
    → update (link_blocks left i start size word) (start + (i + left) * size) null
      ≡ CentralCache.link_blocks left i start size word
unfolding link_blocks CentralCache.link_blocks
link_blocks_same zero i start size word = let at : i + 0 ≡ i = omega arith in rw at refl
link_blocks_same (suc left) i start size word =
    let at : i + suc left ≡ i + 1 + left = omega arith in
    rw at (
      link_blocks_same left (i + 1) start size
        (update word (start + i * size) (start + (i + 1) * size)))

link_blocks_whole :
    (left start size : ℕ) (word : Ptr → Ptr)
    → update (link_blocks left 0 start size word) (start + left * size) null
      ≡ CentralCache.link_blocks left 0 start size word
link_blocks_whole left start size word =
    let at : 0 + left ≡ left = omega arith in
    subst
      (λ (k : ℕ).
        update (link_blocks left 0 start size word) (start + k * size) null
        ≡ CentralCache.link_blocks left 0 start size word)
      at (link_blocks_same left 0 start size word)

length-block_addresses : (n i start size : ℕ) → length (block_addresses n i start size) ≡ n
length-block_addresses zero i start size = refl
length-block_addresses (suc n) i start size = ap suc (length-block_addresses n (i + 1) start size)

-- The blocks of a new span but for the first are the list of the class.
pub record Carved (index n : ℕ) (start : Ptr) (before after : World) : Type 0 where
  pub blocks :
      Blocks after.word
        (after.central_free_list index)
        (block_addresses (n - 1) 1 start (get_size index))
  -- the first block is off the list
  pub cleared : after.word start ≡ null
  -- The tracker counts the blocks of the list.
  pub tracked :
      after.span_trackers
      ≡ before.span_trackers
        ++ record {
          span_addr = start;
          num_pages = span_pages (get_size index);
          block_count = n;
          free_count = length (block_addresses (n - 1) 1 start (get_size index));
        }
          ∷ []

carve_span-Carved :
    (index m start : ℕ) (w : World)
    → index < 56
    → start ≢ null
    → Returns
        (λ _ w'. Carved index (suc (suc m)) start w w')
        (carve_span index (suc (suc m)) start w)
unfolding carve_span
carve_span-Carved index m start w class some_start =
    let size : ℕ = get_size index in
    let size_pos : 0 < size = (get_size_multiple index class).1 in
    let less : suc (suc m) - 1 ≡ suc m = omega arith in
    let from : start + 0 * size ≡ start = omega arith in
    let linked : Ptr → Ptr = CentralCache.link_blocks (suc m) 0 start size w.word in
    let l : Blocks linked start (start ∷ block_addresses (suc m) 1 start size) =
      subst (λ (p : Ptr). Blocks linked p (p ∷ block_addresses (suc m) 1 start size)) from
        (link_blocks-Blocks start size size_pos (suc m) 0 w.word (omega arith)) in
    rw
      (
        less,
        link_blocks_whole (suc m) start size w.word,
        load-ok (record w { word = linked }) start some_start,
        and_then,
        store-ok (record w { word = linked }) start null some_start,
      )
      (returns (record {
        blocks = rw (less, ==_refl index) (frame start null (rest l) (first_fresh l));
        cleared = rw (==_refl start) refl;
        tracked = rw (less, length-block_addresses (suc m) 1 start size) refl;
      }))

-- A class of blocks of at most 16384 bytes that has no block, while the page cache has no free span
-- of eight pages or more: if the system grants eight pages, `fetchRange` hands out the first block,
-- all others are linked in address order on the list of the class, and a new tracker counts them.
pub fetch_range-Carved :
    (os : Platform) (index start : ℕ) (w : World)
    → index < 56
    → get_size index ≤ 16384
    → w.central_free_list index ≡ null
    → lower_bound min_span_pages w.free_spans ≡ none
    → os.mmap w.system_calls (min_span_pages * page_size) ≡ start
    → start ≢ null
    → start ≢ size_max
    → Returns
        (λ r w'.
          (r ≡ start) × Carved index (min_span_pages * page_size / get_size index) start w w')
        (fetch_range os index w)
unfolding fetch_range fetch_new fetch_from_page_cache
fetch_range-Carved os index start w class small empty none_free answer some_start valid =
    let size : ℕ = get_size index in
    let size_pos : 0 < size = (get_size_multiple index class).1 in
    let known : leb free_list_size index ≡ false = ground (arith, free_list_size_lem) in
    let pages : span_pages size ≡ 8 = unfold span_pages in ground arith in
    let many : 2 ≤ 32768 / size = (le-div_iff_mul-le size_pos).1 (omega arith) in
    let n : 32768 / size ≡ suc (suc (32768 / size - 2)) = omega arith in
    let more : ltb 1 (suc (suc (32768 / size - 2))) ≡ true = ground arith in
    rw
      (
        known,
        empty,
        pages,
        allocate_span-mapped os 8 start w (omega arith) (omega arith) none_free answer some_start
            valid,
        and_then,
        ne→== start null some_start,
        n,
        more,
      )
      (bind (carve_span-Carved index (32768 / size - 2) start (mapped w 8 start) class some_start)
        (λ _ w' c.
          returns (refl, record { blocks = c.blocks; cleared = c.cleared; tracked = c.tracked })))
