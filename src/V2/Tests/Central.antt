-- ===== src/V2/Tests/Central.antt =====
-- The lists of the central cache of version 2 on two blocks.
use my_memory_pool.Prelude.{some}
use my_memory_pool.Prelude.{Ptr, null, update, ℕ, ◌+◌, ◌*◌, ◌/◌, ◌≡◌, refl, arith, [], ◌∷◌, leb→le}
use my_memory_pool.Prelude.Command.{Returns}
use my_memory_pool.Prelude.Assoc.{lower_bound}
use my_memory_pool.Prelude.Blocks.{Blocks, end, link}
use my_memory_pool.V2.SizeTable.{get_size, size_class_table}
use my_memory_pool.V2.Sample.{linux}
use my_memory_pool.V2.World.{World, SpanTracker, empty_world}
use my_memory_pool.V2.CentralCache.{count_blocks, fetch_range, return_range}
use my_memory_pool.V2.CentralCache.{tracker_at}
use my_memory_pool.V2.CentralCache.Lists.{return_range-joined}
use my_memory_pool.V2.CentralCache.Count.{count_at, number_of, count_blocks-number_of}
use my_memory_pool.V2.CentralCache.Refill.{Carved, fetch_range-Carved}

-- a span of eight pages at 65536, and two blocks, of which the first links to the second
abbrev tracker : SpanTracker
tracker = record { span_addr = 65536; num_pages = 8; block_count = 4; free_count = 3 }

two_blocks : (first second : Ptr) → World
two_blocks first second = record empty_world {
  word = update (λ _. null) first second;
  span_trackers = tracker ∷ [];
}

count_blocks-number_of_example :
    Returns
      (λ counts' w'.
        (w' ≡ two_blocks 65536 4096)
        × ((i : ℕ) (t : SpanTracker)
            → tracker_at (tracker ∷ []) i ≡ some t
            → count_at i counts' ≡ count_at i [] + number_of t (65536 ∷ 4096 ∷ [])))
      (count_blocks 3 65536 [] (two_blocks 65536 4096))
unfolding two_blocks
count_blocks-number_of_example =
    count_blocks-number_of 3 65536 (65536 ∷ 4096 ∷ []) [] (two_blocks 65536 4096) (tt, tt)
      (link (ground arith) refl refl (link (ground arith) refl refl end)) (omega arith)

return_range-joined_example :
    Returns
      (λ _ w'.
        Blocks w'.word (w'.central_free_list 0) (65536 ∷ 4096 ∷ [])
        × (w'.word ≡ update (update (λ _. null) 65536 4096) 4096 null))
      (return_range linux 10 65536 16 0 (two_blocks 65536 4096))
unfolding two_blocks get_size size_class_table
return_range-joined_example =
    return_range-joined linux 10 65536 65536 16 0 (4096 ∷ []) [] (two_blocks 65536 4096)
      (omega arith) (leb→le _ _ refl) (omega arith, omega arith)
      (link (ground arith) refl refl (link (ground arith) refl refl end)) end (λ a h. refl)

fetch_range-Carved_example :
    Returns
      (λ r w'. (r ≡ 1073741824) × Carved 0 (8 * 4096 / get_size 0) 1073741824 empty_world w')
      (fetch_range linux 0 empty_world)
unfolding get_size size_class_table lower_bound
fetch_range-Carved_example =
    fetch_range-Carved linux 0 1073741824 empty_world (omega arith) (leb→le _ _ refl) refl refl refl
      (ground arith) (ground arith)

-- The tracker counts three free blocks and one is counted on the list, so that the span is given
-- back, whatever the three blocks that are not on the list are used for.
tracked_span : World
tracked_span = record empty_world {
  word = update (λ _. null) 65536 4096;
  spans = (1, record { page_addr = 65536; num_pages = 8; next = null }) ∷ [];
  next_span = 2;
  span_map = (65536, 1) ∷ [];
  central_free_list = λ _. 65536;
  span_trackers = tracker ∷ [];
}

-- The other order of the same blocks: 4096 is lost.
other_first : World
unfolding tracked_span
other_first = record tracked_span {
  word = update (λ _. null) 4096 65536;
  central_free_list = λ _. 4096;
}
