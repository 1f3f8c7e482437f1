-- ===== src/V2/Tests/Stale.antt =====
-- A span of eight pages at 65536 whose first word still holds the address 4096, for the class of
-- 20480 bytes.
use my_memory_pool.Prelude.{null, update, ◌+◌, ◌≡◌, refl, arith, ltb→lt, [], ◌∷◌}
use my_memory_pool.Prelude.Command.{Returns}
use my_memory_pool.Prelude.Assoc.{lookup, insert, erase, lower_bound}
use my_memory_pool.V2.SizeTable.{get_size, size_class_table}
use my_memory_pool.V2.Sample.{linux}
use my_memory_pool.V2.World.{World, empty_world, done, read_span, write_span}
use my_memory_pool.V2.PageCache.{allocate_span, reuse_span, map_span_at}
use my_memory_pool.V2.CentralCache.{span_pages}
use my_memory_pool.V2.ThreadCache.{empty_cache, allocate_small}
use my_memory_pool.V2.ThreadCache.Stale.{allocate_small_stale}

used_span : World
used_span = record empty_world {
  word = update (λ _. null) 65536 4096;
  spans = (1, record { page_addr = 65536; num_pages = 8; next = null }) ∷ [];
  next_span = 2;
  free_spans = (8, 1) ∷ [];
  span_map = (65536, 1) ∷ [];
}

handed_out :
    allocate_span linux (span_pages (get_size 40)) used_span
    ≡ done 65536 (record used_span { free_spans = [] })
unfolding used_span allocate_span reuse_span map_span_at read_span write_span lookup insert erase
    lower_bound get_size size_class_table span_pages
handed_out = refl

allocate_small_stale_example :
    Returns
      (λ (r, t') _. (r ≡ 65536) × ((t'.free_list 40 ≡ 4096) × (t'.free_list_size 40 ≡ 0 + 1)))
      (allocate_small linux 10 empty_cache 40 used_span)
unfolding used_span get_size size_class_table
allocate_small_stale_example =
    allocate_small_stale linux 10 empty_cache 40 65536 4096 used_span
      (record used_span { free_spans = [] }) (omega arith) (ltb→lt _ _ refl) (omega arith) refl refl
      handed_out (ground arith) refl (ground arith) refl
