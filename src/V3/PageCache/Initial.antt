-- ===== src/V3/PageCache/Initial.antt =====
-- The page cache at the start of the program.
use my_memory_pool.Prelude.{refl, arith}
use my_memory_pool.Prelude.Assoc.{lookup}
use my_memory_pool.V3.World.{Platform, empty_world}
use my_memory_pool.V3.PageCache.Invariant.{Inv, total_free}

pub empty_world-Inv : (os : Platform) → Inv os empty_world
unfolding lookup total_free
empty_world-Inv os = record {
  mapped = record {
    sorted = tt;
    next_pos = omega arith;
    fresh = λ p s e. cc;
    nonempty = λ p s e. cc;
    above_null = λ p s e. cc;
    aligned = λ p s e. cc;
    registered = λ p s i e lt. cc;
    owned = λ j p e. cc;
  };
  listed = record { keys = tt; lists = λ k p e. cc; counted = refl };
}
