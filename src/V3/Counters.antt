-- ===== src/V3/Counters.antt =====
-- The statistics of `v3/src/MemoryPool.cpp`. The counters are 64-bit atomics that wrap.
use my_memory_pool.Prelude.{ℕ, Bool, ltb, if◌then◌else◌, add64}
use my_memory_pool.V3.SizeClass.{max_bytes}
use my_memory_pool.V3.World.{Counters, Platform, done, Cmd}

-- Counting is compiled in or not.
abbrev pub count_if : Bool → (Counters → Counters) → Cmd (Unit {0})
count_if enabled f w = if enabled then done tt (record w { counters = f w.counters }) else done tt w

module _ (os : Platform) where
  unfoldable pub record_allocation : ℕ → Cmd (Unit {0})
  record_allocation size = count_if os.stats_enabled λ c.
      if ltb max_bytes size
      then record c {
        alloc_count = add64 c.alloc_count 1;
        large_alloc_count = add64 c.large_alloc_count 1;
      }
      else record c {
        alloc_count = add64 c.alloc_count 1;
        small_alloc_count = add64 c.small_alloc_count 1;
      }

  unfoldable pub record_free : Bool → Cmd (Unit {0})
  record_free sized = count_if os.stats_enabled λ c.
      if sized
      then record c {
        free_count = add64 c.free_count 1;
        sized_free_count = add64 c.sized_free_count 1;
      }
      else record c {
        free_count = add64 c.free_count 1;
        unsized_free_count = add64 c.unsized_free_count 1;
      }

  unfoldable pub record_central_refill : ℕ → Cmd (Unit {0})
  record_central_refill count =
      count_if os.stats_enabled
        λ c. record c { central_refill_count = add64 c.central_refill_count count }

  unfoldable pub record_central_flush : ℕ → Cmd (Unit {0})
  record_central_flush count =
      count_if os.stats_enabled
        λ c. record c { central_flush_count = add64 c.central_flush_count count }
