-- ===== src/V1/Pool/Slots.antt =====
-- The slots that were cut from the blocks of a pool of version 1.
use my_memory_pool.Prelude.{
  Ptr, ℕ, ◌+◌, ◌%◌, ◌≤◌, ◌<◌, ◌≡◌, ◌≢◌, true, arith, inl, inr, List, ◌==◌, ltb, Bool-cases,
}
use my_memory_pool.Prelude.Blocks.{has}
use my_memory_pool.V1.Pool.{MemoryPool, Heap}
use my_memory_pool.V1.Pool.Chain.{Clear, Fresh, Inside, Chain}

-- A slot in one of the blocks behind its header; those of the newest block lie before `curSlot_`.
pub record Placed (bs : List Ptr) (pool : MemoryPool) (slot : Ptr) : Type 0 where
  pub block : Ptr
  pub known : has block bs ≡ true
  pub behind_header : block + 8 ≤ slot
  pub fits : slot + pool.slot_size ≤ block + pool.block_size
  pub slot_aligned : slot % pool.slot_size ≡ 0
  pub passed : block ≡ pool.first_block → slot + pool.slot_size ≤ pool.cur_slot

-- Distinct multiples of a size are at least that size apart.
multiples_apart : (s a b : ℕ) → a % s ≡ 0 → b % s ≡ 0 → a < b → a + s ≤ b
multiples_apart s a b e f lt = grind arith

pub aligned_Clear : (s a b : ℕ) → a % s ≡ 0 → b % s ≡ 0 → a ≢ b → Clear s a b
aligned_Clear s a b e f ne = elim (Bool-cases (ltb a b)) [
  | inl below ↦ inl (multiples_apart s a b e f (ground arith))
  | inr above ↦ inr (multiples_apart s b a f e (ground arith))
]

module _ (bs : List Ptr) (h : Heap) where
  -- Any word inside a slot lies inside a block, behind its header.
  pub word_Inside :
      (slot at : Ptr)
      → Placed bs h.pool slot
      → slot ≤ at
      → at < slot + h.pool.slot_size
      → Inside h.pool.block_size at bs
  word_Inside slot at p lo hi = record {
    block = p.block;
    known = p.known;
    behind_header = omega (arith, p.behind_header);
    before_end = omega (arith, p.fits);
  }

  -- No slot is where the next fresh one will be.
  pub fresh_slot :
      (slot : Ptr)
      → Chain bs h
      → 0 < h.pool.slot_size
      → has h.pool.first_block bs ≡ true
      → h.pool.first_block + 8 ≤ h.pool.cur_slot
      → h.pool.cur_slot + h.pool.slot_size ≤ h.pool.first_block + h.pool.block_size
      → Placed bs h.pool slot
      → slot ≢ h.pool.cur_slot
  fresh_slot slot c pos known lo hi p same = elim (Bool-cases (p.block == h.pool.first_block)) [
    | inl newest ↦ omega (arith, p.passed (ground arith), same)
    | inr older ↦ elim (c.disjoint p.block h.pool.first_block p.known known (ground arith)) [
      | inl below ↦ omega (arith, below, p.fits, same)
      | inr above ↦ omega (arith, above, p.behind_header, same)
    ]
  ]

  -- A fresh block shares nothing with a slot.
  pub block_fresh :
      (new_block slot : Ptr)
      → Fresh h.pool.block_size new_block bs
      → 0 < h.pool.slot_size
      → Placed bs h.pool slot
      → slot ≢ new_block
  block_fresh a slot f pos p same = elim (f.clear p.block p.known) [
    | inl below ↦ omega (arith, below, p.behind_header, same)
    | inr above ↦ omega (arith, above, p.fits, same)
  ]
