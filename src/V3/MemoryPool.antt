-- ===== src/V3/MemoryPool.antt =====
-- `v3/src/MemoryPool.cpp`, the templates of `v3/include/kama/MemoryPool.h` and
-- `v3/include/kama/Allocator.h`, and the C functions of `v3/src/kama_c_api.cpp`. The cache of the
-- calling thread is an argument, as in `ThreadCache`.
use my_memory_pool.Prelude.{
  Ptr, null, ℕ, ◌-◌, ◌*◌, ◌/◌, Bool, true, false, ltb, leb, ◌==◌, if◌then◌else◌, size_max,
}
use my_memory_pool.V3.SizeClass.{alignment}
use my_memory_pool.V3.World.{Counters, Platform, Cmd, pure, ◌>>=◌, ◌>>◌, get, skip}
use my_memory_pool.V3.PageCache.{reserved_bytes, cached_page_bytes}
use my_memory_pool.V3.Counters.{record_allocation, record_free}
use my_memory_pool.V3.ThreadCache.{ThreadCache}
use my_memory_pool.V3.ThreadCache

pub record MemoryPoolStats : Type 0 where
  pub alloc_count : ℕ
  pub free_count : ℕ
  pub live_allocs : ℕ
  pub small_alloc_count : ℕ
  pub large_alloc_count : ℕ
  pub sized_free_count : ℕ
  pub unsized_free_count : ℕ
  pub central_refill_count : ℕ
  pub central_flush_count : ℕ
  pub reserved_bytes : ℕ
  pub cached_page_bytes : ℕ

-- The initialisers of the struct, with the two figures of the page cache.
abbrev pub page_stats : (reserved cached : ℕ) → MemoryPoolStats
page_stats reserved cached = record {
  alloc_count = 0;
  free_count = 0;
  live_allocs = 0;
  small_alloc_count = 0;
  large_alloc_count = 0;
  sized_free_count = 0;
  unsized_free_count = 0;
  central_refill_count = 0;
  central_flush_count = 0;
  reserved_bytes = reserved;
  cached_page_bytes = cached;
}

abbrev pub with_counters : MemoryPoolStats → Counters → MemoryPoolStats
with_counters out c = record out {
  alloc_count = c.alloc_count;
  free_count = c.free_count;
  live_allocs = if ltb c.free_count c.alloc_count then c.alloc_count - c.free_count else 0;
  small_alloc_count = c.small_alloc_count;
  large_alloc_count = c.large_alloc_count;
  sized_free_count = c.sized_free_count;
  unsized_free_count = c.unsized_free_count;
  central_refill_count = c.central_refill_count;
  central_flush_count = c.central_flush_count;
}

-- How a call of `Allocator<T>::allocate` ends.
pub data Allocation : Type 0 where
  allocated : Ptr → Allocation
  bad_array_new_length bad_alloc : Allocation

-- How a call of `newElement` ends: the object's address, or the exception of its constructor.
pub data Construction : Type 0 where
  constructed : Ptr → Construction
  rethrown : Construction

module _ (os : Platform) where
  unfoldable pub allocate : ThreadCache → ℕ → Cmd (Ptr × ThreadCache)
  allocate t size = do
    (ptr, t') ← ThreadCache.allocate os t size
    (if ptr == null then skip else record_allocation os size)
    pure (ptr, t')

  unfoldable pub allocate_aligned : ThreadCache → (size align : ℕ) → Cmd (Ptr × ThreadCache)
  allocate_aligned t size align = do
    (ptr, t') ← ThreadCache.allocate_aligned os t size align
    (if ptr == null then skip else record_allocation os size)
    pure (ptr, t')

  unfoldable pub deallocate : ThreadCache → Ptr → Cmd ThreadCache
  deallocate t ptr = if ptr == null then pure t else do
    (freed, t') ← ThreadCache.deallocate os t ptr
    (if freed then record_free os false else skip)
    pure t'

  unfoldable pub deallocate_sized : ThreadCache → Ptr → ℕ → Cmd ThreadCache
  deallocate_sized t ptr size = if ptr == null then pure t else do
    (freed, t') ← ThreadCache.deallocate_sized os t ptr size
    (if freed then record_free os true else skip)
    pure t'

  unfoldable pub stats : Cmd MemoryPoolStats
  stats = do
    reserved ← reserved_bytes os
    cached ← cached_page_bytes os
    w ← get
    pure (
        if os.stats_enabled
        then with_counters (page_stats reserved cached) w.counters
        else page_stats reserved cached)

  -- `newElement<T>` for a type of the given size and alignment; `throws` says whether its
  -- constructor throws.
  unfoldable pub new_element :
      (size align : ℕ) (throws : Bool) → ThreadCache → Cmd (Construction × ThreadCache)
  new_element size align throws t = do
    (mem, t') ← if leb align alignment then allocate t size else allocate_aligned t size align
    if mem == null
        then pure (constructed null, t')
        else if throws
        then (do t'' ← deallocate t' mem; pure (rethrown, t''))
        else pure (constructed mem, t')

  unfoldable pub delete_element : ThreadCache → Ptr → Cmd ThreadCache
  delete_element t p = if p == null then pure t else deallocate t p

  -- `Allocator<T>` for a type of the given size and alignment.
  unfoldable pub allocator_allocate :
      (size align : ℕ) → ThreadCache → ℕ → Cmd (Allocation × ThreadCache)
  allocator_allocate size align t n =
      if n == 0
      then pure (allocated null, t)
      else if ltb (size_max / size) n
      then pure (bad_array_new_length, t)
      else do
        (p, t') ← allocate_aligned t (n * size) align
        pure (if p == null then bad_alloc else allocated p, t')

  unfoldable pub allocator_deallocate : (size align : ℕ) → ThreadCache → Ptr → ℕ → Cmd ThreadCache
  allocator_deallocate size align t p n =
      if leb align alignment then deallocate_sized t p (n * size) else deallocate t p

  -- The C interface.
  unfoldable pub kama_alloc : ThreadCache → ℕ → Cmd (Ptr × ThreadCache)
  kama_alloc = allocate

  unfoldable pub kama_alloc_aligned : ThreadCache → (size align : ℕ) → Cmd (Ptr × ThreadCache)
  kama_alloc_aligned = allocate_aligned

  unfoldable pub kama_free : ThreadCache → Ptr → Cmd ThreadCache
  kama_free = deallocate

  unfoldable pub kama_free_sized : ThreadCache → Ptr → ℕ → Cmd ThreadCache
  kama_free_sized = deallocate_sized
