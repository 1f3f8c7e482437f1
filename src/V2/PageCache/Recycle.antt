-- ===== src/V2/PageCache/Recycle.antt =====
-- A span that goes back to the page cache is the next one of its size.
use my_memory_pool.Prelude.{Ptr, null, ℕ, List, ◌==◌, if◌then◌else◌}
use my_memory_pool.Prelude.Assoc.{insert, erase}
use my_memory_pool.V2.World.{World}
use my_memory_pool.V2.PageCache.Alone.{Alone}

-- The list for `n` pages without its first span.
free_tail : Ptr → ℕ → List (ℕ × Ptr) → List (ℕ × Ptr)
free_tail next n m = if next == null then erase n m else insert n next m
