-- ===== src/V2/Tests/Pages.antt =====
-- The page cache of version 2 on one span.
use my_memory_pool.Prelude.{Ptr, none, if◌then◌else◌, ◌≡◌, refl, null, arith, [], ◌∷◌}
use my_memory_pool.Prelude.Command.{Returns}
use my_memory_pool.Prelude.Assoc.{lookup}
use my_memory_pool.Prelude.Blocks.{has}
use my_memory_pool.V2.World.{World, empty_world}
use my_memory_pool.V2.PageCache.{destroy}
use my_memory_pool.V2.PageCache.Destroy.{destroy-unmapped}

one_span : World
one_span = record empty_world {
  spans = (1, record { page_addr = 1048576; num_pages = 4; next = null }) ∷ [];
  next_span = 2;
  span_map = (1048576, 1) ∷ [];
}

-- A free span of two pages before it, which ends elsewhere.
gapped : World
gapped = record empty_world {
  spans =
      (1, record { page_addr = 1048576; num_pages = 4; next = null })
      ∷ (2, record { page_addr = 65536; num_pages = 2; next = null })
      ∷ [];
  next_span = 3;
  span_map = (65536, 2) ∷ (1048576, 1) ∷ [];
  free_spans = (2, 2) ∷ [];
}

destroy-unmapped_example :
    Returns
      (λ _ w'.
        (w'.unmapped ≡ (1048576, 16384) ∷ [])
        × ((w'.span_map ≡ [])
            × ((w'.free_spans ≡ [])
                × ((q : Ptr)
                    → lookup q w'.spans
                      ≡ (if has q (1 ∷ []) then none else lookup q one_span.spans)))))
      (destroy (record one_span { system_allocs = (1048576, 16384) ∷ [] }))
unfolding one_span lookup
destroy-unmapped_example =
    destroy-unmapped (record one_span { system_allocs = (1048576, 16384) ∷ [] })
      ((record { page_addr = 1048576; num_pages = 4; next = null }, refl), (refl, tt))
      (ground arith, tt)
