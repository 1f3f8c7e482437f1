-- ===== src/V3/Tests.antt =====
-- Version 3 on concrete requests: runs from the start of the program, and the laws at inputs that
-- meet their conditions.
mod PageCache
mod History
mod Sizes
mod Large
mod Threads
mod Batch
mod Owner
mod Shelf
mod Exclusive
mod Create
mod Whole
mod SpinLock
use my_memory_pool.Prelude.{Ptr, Option, none, some}
use my_memory_pool.V3.Sample.{linux}
use my_memory_pool.V3.World.{Run, done, fault, out_of_fuel, Cmd, pure, ◌>>=◌, empty_world}
use my_memory_pool.V3.ThreadCache.{empty_cache}
use my_memory_pool.V3.MemoryPool

answer : {S A : Type 0} → Run S A → Option A
answer (done a w) = some a
answer fault = none
answer out_of_fuel = none

reuse : Cmd (Ptr × Ptr × Ptr)
reuse = do
  (a, t) ← MemoryPool.allocate linux empty_cache 64
  (b, t) ← MemoryPool.allocate linux t 64
  t ← MemoryPool.deallocate linux t a
  (c, t) ← MemoryPool.allocate linux t 60
  pure (a, b, c)

-- Two blocks of 64 bytes, and the first one again after it was freed.
abbrev reuse_run : Option (Ptr × Ptr × Ptr)
unfolding answer reuse
reuse_run = answer (reuse empty_world)
