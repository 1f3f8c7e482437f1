-- ===== src/V2/CentralCache/GiveBack.antt =====
-- The branch of `updateSpanFreeCount` that gives a span back to the page cache.
use my_memory_pool.Prelude.Blocks.{Blocks}
use my_memory_pool.V2.World.{World}
use my_memory_pool.V2.PageCache.Alone.{Alone}
