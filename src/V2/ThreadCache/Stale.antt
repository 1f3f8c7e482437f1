-- ===== src/V2/ThreadCache/Stale.antt =====
-- `allocate` for a class with one block for each span: the first word of the block is not cleared.
use native.Mathlib.Nat.{le-div_iff_mul-le}
use my_memory_pool.Prelude.{
  null, ℕ, zero, suc, ◌+◌, ◌*◌, ◌/◌, ◌≤◌, ◌<◌, ◌≡◌, refl, ◌≢◌, false, arith, leb, ltb, ne→==,
  ==_refl,
}
use my_memory_pool.Prelude.Command.{Returns, returns}
use my_memory_pool.V2.SizeTable.{free_list_size, get_size}
use my_memory_pool.V2.SizeTable.Laws.{free_list_size_lem}
use my_memory_pool.V2.World.{World, Platform, done, and_then}
use my_memory_pool.V2.World.Rules.{load-ok}
use my_memory_pool.V2.PageCache.{page_size, allocate_span}
use my_memory_pool.V2.CentralCache.{span_pages, fetch_from_page_cache, fetch_new, fetch_range}
use my_memory_pool.V2.ThreadCache.{
  ThreadCache, count_links, fetch_from_central_cache, allocate_small,
}

tight :
    (size : ℕ)
    → 16384 < size
    → (1 * size ≤ span_pages size * page_size) × (span_pages size * page_size < 2 * size)
unfolding span_pages
tight size large = ground arith

one_block : (size : ℕ) → 16384 < size → span_pages size * page_size / size ≡ 1
one_block size large =
    let (enough, short) = tight size large in
    let pos : 0 < size = omega arith in
    let one : 1 ≤ span_pages size * page_size / size = (le-div_iff_mul-le pos).1 enough in
    omega (arith, one, two)
  where
    two : ¬ (2 ≤ span_pages size * page_size / size)
    two h =
        let (enough, short) = tight size large in
        let pos : 0 < size = omega arith in
        let more : 2 * size ≤ span_pages size * page_size = (le-div_iff_mul-le pos).0 h in
        omega arith

count_links-one :
    (fuel p : ℕ) (w : World)
    → 2 ≤ fuel
    → p ≢ null
    → w.word p ≡ null
    → count_links fuel 0 p w ≡ done 1 w
unfolding count_links
count_links-one zero p w h ne e = absurd (omega arith)
count_links-one (suc zero) p w h ne e = absurd (omega arith)
count_links-one (suc (suc fuel)) p w h ne e = rw (ne→== p null ne, load-ok w p ne, and_then, e) refl

module _ (os : Platform) (fuel : ℕ) where
  fetch_range-single :
      (index start : ℕ) (w w' : World)
      → index < 56
      → 16384 < get_size index
      → w.central_free_list index ≡ null
      → allocate_span os (span_pages (get_size index)) w ≡ done start w'
      → start ≢ null
      → fetch_range os index w ≡ done start w'
  unfolding fetch_range fetch_new fetch_from_page_cache
  fetch_range-single index start w w' class large empty answer some_start =
      let known : leb free_list_size index ≡ false = ground (arith, free_list_size_lem) in
      let single : ltb 1 (span_pages (get_size index) * page_size / get_size index) ≡ false =
        ground (arith, one_block (get_size index) large) in
      rw (known, empty, answer, and_then, ne→== start null some_start, single) refl

  -- A class of blocks above 16384 bytes has one block for each span. When the lists of the class
  -- are empty and the page cache hands out a span whose first word still holds an address
  -- `stale`, not nullptr, where a null word stands, the thread takes that address for a free
  -- block of the class, whatever it is.
  pub allocate_small_stale :
      (t : ThreadCache) (index start stale : ℕ) (w w' : World)
      → index < 56
      → 16384 < get_size index
      → 2 ≤ fuel
      → t.free_list index ≡ null
      → w.central_free_list index ≡ null
      → allocate_span os (span_pages (get_size index)) w ≡ done start w'
      → start ≢ null
      → w'.word start ≡ stale
      → stale ≢ null
      → w'.word stale ≡ null
      → Returns
          (λ (r, t') _.
            (r ≡ start)
            × ((t'.free_list index ≡ stale)
                × (t'.free_list_size index ≡ t.free_list_size index + 1)))
          (allocate_small os fuel t index w)
  unfolding allocate_small fetch_from_central_cache
  allocate_small_stale t index start stale w w' class large enough none_own none_central answer
        some_start first some_stale last =
      rw
        (
          none_own,
          fetch_range-single index start w w' class large none_central answer some_start,
          and_then,
          ne→== start null some_start,
          load-ok w' start some_start,
          and_then,
          first,
          count_links-one fuel stale w' enough some_stale last,
          and_then,
        )
        (returns (refl, (rw (==_refl index) refl, rw (==_refl index) refl)))
