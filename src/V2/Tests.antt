-- ===== src/V2/Tests.antt =====
-- Version 2 on concrete inputs: runs from the start of the program, and the laws at inputs that
-- meet their conditions.
mod Central
mod Pages
mod Stale
mod Threads
use my_memory_pool.Prelude.{Ptr, ℕ, zero, suc, ◌≡◌, Option, none, some, List, [], ◌∷◌}
use my_memory_pool.V3.SizeClass
use my_memory_pool.V2.SizeClass.{get_index}
use my_memory_pool.V2.SizeClass.Agreement.{search-get_index}
use my_memory_pool.V2.Sample.{linux}
use my_memory_pool.V2.World.{
  Run, done, fault, out_of_fuel, SpanTracker, Cmd, pure, ◌>>=◌, ◌>>◌, get, put, empty_world,
}
use my_memory_pool.V2.CentralCache.{fetch_range, return_range}
use my_memory_pool.V2.ThreadCache.{empty_cache}
use my_memory_pool.V2.MemoryPool.{allocate, deallocate}

search-get_index_example : get_index 100000 ≡ SizeClass.get_index 100000
search-get_index_example = search-get_index 100000

answer : {S A : Type 0} → Run S A → Option A
answer (done a w) = some a
answer fault = none
answer out_of_fuel = none

reuse : Cmd (Ptr × Ptr × Ptr)
reuse = do
  (a, t) ← allocate linux 600 empty_cache 64
  (b, t) ← allocate linux 600 t 64
  t ← deallocate linux 600 t a 64
  (c, t) ← allocate linux 600 t 60
  pure (a, b, c)

-- Two blocks of 64 bytes, and the first one again after it was freed.
abbrev reuse_run : Option (Ptr × Ptr × Ptr)
unfolding answer reuse
reuse_run = answer (reuse empty_world)

-- A delayed return of class 35, whose spans have four blocks of 8192 bytes, while one of the four
-- is in use: it is due at the second of two lists that come back.
one_in_use : Cmd (Ptr × List SpanTracker × List (ℕ × Ptr))
one_in_use = do
  a ← fetch_range linux 35
  b ← fetch_range linux 35
  c ← fetch_range linux 35
  return_range linux 100 a 8192 35
  w ← get
  put (record w { delay_counts = λ _. 47 })
  return_range linux 100 b 8192 35
  w ← get
  pure (c, w.span_trackers, w.free_spans)

-- The tracker counts four free blocks, and its span, the block `c` in it, is on a free list.
abbrev one_in_use_run : Option (Ptr × List SpanTracker × List (ℕ × Ptr))
unfolding answer one_in_use
one_in_use_run = answer (one_in_use empty_world)
