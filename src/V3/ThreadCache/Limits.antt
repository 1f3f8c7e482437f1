-- ===== src/V3/ThreadCache/Limits.antt =====
-- The limits of a thread's lists: `getBatchNum`, `maxCachedBlocks` and what `returnToCentralCache`
-- keeps.
use my_memory_pool.Prelude.{ℕ, ◌*◌, ◌/◌, ◌≤◌, ◌<◌, ◌≡◌, ◌⊎◌, inl, inr, max, arith}
use native.Mathlib.Decide.{dec_le}
use native.Mathlib.Nat.{div-mul-le_self, le-div_iff_mul-le}
use my_memory_pool.V3.ThreadCache.{max_cached_blocks, batch_limit, get_batch_num, keep_num}

-- the blocks that a budget of bytes pays for, at 8 bytes or more each
quota : (budget size : ℕ) → budget / max size 8 * max size 8 ≤ budget
quota budget size = div-mul-le_self budget (max size 8)

quota_mono : (size : ℕ) → 64 * 1024 / max size 8 ≤ 256 * 1024 / max size 8
quota_mono size = (le-div_iff_mul-le (omega arith)).1 (omega (arith, quota (64 * 1024) size))

within : (b q size d budget : ℕ) → b ≤ q → size ≤ d → q * d ≤ budget → b * size ≤ budget
within b q size d budget h k l = grind arith

batch_le : (size : ℕ) → get_batch_num size ≤ max 1 (64 * 1024 / max size 8)
unfolding get_batch_num batch_limit
batch_le size = ground arith

batch-le-max_cached : (size : ℕ) → get_batch_num size ≤ max_cached_blocks size
unfolding get_batch_num max_cached_blocks batch_limit
batch-le-max_cached size = ground (arith, quota_mono size)

-- A batch has at least one block and at most 512, no more blocks than a list of its size may have,
-- and no more than 64 KiB unless it is one block.
pub get_batch_num_bounds :
    (size : ℕ)
    → (1 ≤ get_batch_num size)
      × (get_batch_num size ≤ 512)
      × (get_batch_num size ≤ max_cached_blocks size)
      × ((get_batch_num size ≡ 1) ⊎ (get_batch_num size * size ≤ 64 * 1024))
get_batch_num_bounds size = (
  at_least size,
  at_most size,
  batch-le-max_cached size,
  elim (dec_le (get_batch_num size) 1) [
    | yes one ↦ inl (omega (arith, at_least size))
    | no more ↦ inr (
        within (get_batch_num size) (64 * 1024 / max size 8) size (max size 8) (64 * 1024)
          (omega (arith, batch_le size)) (omega arith) (quota (64 * 1024) size))
  ],
)
  where
    at_least : (size : ℕ) → 1 ≤ get_batch_num size
    at_least size = unfold get_batch_num in omega arith

    at_most : (size : ℕ) → get_batch_num size ≤ 512
    at_most size = unfold get_batch_num batch_limit in ground arith

-- Of a list of more than `maxCachedBlocks` blocks, at least one is kept, at most half, and at
-- most the limit.
pub keep_num_bounds :
    (batch_num size : ℕ)
    → max_cached_blocks size < batch_num
    → (1 ≤ keep_num batch_num size)
      × (keep_num batch_num size * 2 ≤ batch_num)
      × (keep_num batch_num size ≤ max_cached_blocks size)
unfolding max_cached_blocks
keep_num_bounds batch_num size h = ground arith
