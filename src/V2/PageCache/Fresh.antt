-- ===== src/V2/PageCache/Fresh.antt =====
-- `allocateSpan` without a large enough free span.
use my_memory_pool.Prelude.{
  Ptr, null, ℕ, ◌+◌, ◌*◌, ◌%◌, ◌<◌, ◌≡◌, refl, ◌≢◌, false, arith, none, [], ◌∷◌, ◌++◌, ◌==◌, ne→==,
  size_max, word_mod,
}
use my_memory_pool.Prelude.Assoc.{insert, lower_bound}
use my_memory_pool.V2.World.{World, Platform, done, and_then, alloc_pages, new_span}
use my_memory_pool.V2.PageCache.{page_size, allocate_span, fresh_span, system_alloc, map_span_at}

-- The new mapping is recorded as one span, under its first address.
abbrev pub mapped : World → (num_pages : ℕ) → Ptr → World
mapped w num_pages memory = record w {
  system_calls = w.system_calls + 1;
  system_allocs = w.system_allocs ++ (memory, num_pages * page_size) ∷ [];
  spans =
      insert w.next_span (record { page_addr = memory; num_pages = num_pages; next = null })
        w.spans;
  next_span = w.next_span + 1;
  span_map = insert memory w.next_span w.span_map;
}

pub allocate_span-mapped :
    (os : Platform) (num_pages memory : ℕ) (w : World)
    → 0 < num_pages
    → num_pages * page_size < word_mod
    → lower_bound num_pages w.free_spans ≡ none
    → os.mmap w.system_calls (num_pages * page_size) ≡ memory
    → memory ≢ null
    → memory ≢ size_max
    → allocate_span os num_pages w ≡ done memory (mapped w num_pages memory)
unfolding allocate_span fresh_span system_alloc alloc_pages new_span map_span_at
allocate_span-mapped os num_pages memory w pos fits none_free answer some_memory valid =
    let size : num_pages * page_size % word_mod ≡ num_pages * page_size = omega arith in
    let some_pages : (num_pages * page_size == 0) ≡ false = ground arith in
    rw
      (
        none_free,
        size,
        some_pages,
        answer,
        ne→== memory size_max valid,
        ne→== memory null some_memory,
        and_then,
        ne→== memory null some_memory,
        allocate_span,
      )
      refl
