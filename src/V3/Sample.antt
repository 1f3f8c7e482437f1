-- ===== src/V3/Sample.antt =====
-- A system for the tests: pages of 4096 bytes, and mappings that follow one another from 2^30 on.
use my_memory_pool.Prelude.{◌+◌, ◌*◌, ◌^◌, true, false}
use my_memory_pool.V3.World.{Platform}

abbrev pub linux : Platform
linux = record {
  page = 4096;
  granularity = 0;
  mmap = λ call bytes. 2 ^ 30 + call * 2 ^ 24;
  debug_guards = false;
  stats_enabled = true;
}

abbrev pub guarded : Platform
guarded = record linux { debug_guards = true }
