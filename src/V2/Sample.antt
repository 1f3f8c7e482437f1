-- ===== src/V2/Sample.antt =====
-- A system for the tests: mappings that follow one another from 2^30 on, a heap at 2^40, a clock
-- that shows a second more at each 1000th reading, and maps that are traversed in key order.
use my_memory_pool.Prelude.{ℕ, ◌+◌, ◌*◌, ◌^◌, List}
use my_memory_pool.V2.World.{Platform}

abbrev pub linux : Platform
linux = record {
  mmap = λ call bytes. 2 ^ 30 + call * 2 ^ 24;
  malloc = λ call bytes. 2 ^ 40 + call * 2 ^ 24;
  now = λ reading. reading * 1000000;
  traversal = λ (entries : List (ℕ × ℕ)). entries;
}
