-- ===== src/V2/MemoryPool.antt =====
-- `v2/include/MemoryPool.h`: the calls go to the cache of the calling thread.
use my_memory_pool.Prelude.{Ptr, ℕ}
use my_memory_pool.V2.World.{Platform, Cmd}
use my_memory_pool.V2.ThreadCache
use my_memory_pool.V2.ThreadCache.{ThreadCache}

module _ (os : Platform) (fuel : ℕ) where
  unfoldable pub allocate : ThreadCache → ℕ → Cmd (Ptr × ThreadCache)
  allocate t size = ThreadCache.allocate os fuel t size

  unfoldable pub deallocate : ThreadCache → Ptr → ℕ → Cmd ThreadCache
  deallocate t ptr size = ThreadCache.deallocate os fuel t ptr size
