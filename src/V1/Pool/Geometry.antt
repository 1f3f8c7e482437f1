-- ===== src/V1/Pool/Geometry.antt =====
-- Where the slots of a pool lie.
use my_memory_pool.Prelude.{
  Ptr, ℕ, ◌+◌, ◌*◌, ◌/◌, ◌%◌, ◌≤◌, ◌<◌, ◌≡◌, refl, arith, leb, Bool-cases, inl, inr, ◌∙◌,
}
use native.Mathlib.Nat.{add-mod_right}
use my_memory_pool.V1.Pool.{
  MemoryPool, Heap, memory_pool, init, pad_pointer, allocate_new_block, take_slot, carve,
}

-- `pad_pointer` skips to the next multiple, which may be a whole slot away and never less than one
-- byte.
pub pad_pointer_lem :
    (p align : ℕ)
    → 0 < align
    → ((p + pad_pointer p align) % align ≡ 0)
      × (0 < pad_pointer p align)
      × (pad_pointer p align ≤ align)
unfolding pad_pointer
pad_pointer_lem p align pos = grind arith

-- A pool in use: slots are whole pointers, a block holds its header and two slots, and the slots
-- that are left lie in the newest block, behind its header.
pub record IsCarving (pool : MemoryPool) : Type 0 where
  pub slot_whole : pool.slot_size % 8 ≡ 0
  pub slot_some : 0 < pool.slot_size
  pub block_ample : 8 + 2 * pool.slot_size ≤ pool.block_size
  pub behind_header : pool.cur_slot < pool.last_slot → pool.first_block + 8 ≤ pool.cur_slot
  pub before_end :
      pool.cur_slot < pool.last_slot
      → pool.last_slot + pool.slot_size ≤ pool.first_block + pool.block_size + 1
  pub aligned : pool.cur_slot < pool.last_slot → pool.cur_slot % pool.slot_size ≡ 0

-- A slot of the newest block.
pub record InBlock (pool : MemoryPool) (slot : Ptr) : Type 0 where
  pub behind_header : pool.first_block + 8 ≤ slot
  pub fits : slot + pool.slot_size ≤ pool.first_block + pool.block_size
  pub slot_aligned : slot % pool.slot_size ≡ 0
  pub passed : pool.cur_slot ≡ slot + pool.slot_size

pub allocate_new_block-room :
    (new_block : Ptr) (h : Heap)
    → IsCarving h.pool
    → let pool = (allocate_new_block new_block h).pool in
      IsCarving pool × (pool.cur_slot < pool.last_slot)
unfolding allocate_new_block
allocate_new_block-room new_block h v =
    let pad = pad_pointer_lem (new_block + 8) h.pool.slot_size v.slot_some in
    (
      record {
        slot_whole = v.slot_whole;
        slot_some = v.slot_some;
        block_ample = v.block_ample;
        behind_header = λ lt. omega (arith, pad.1);
        before_end = λ lt. omega (arith, v.block_ample);
        aligned = λ lt. pad.0;
      },
      omega (arith, v.block_ample, pad.2),
    )

next_aligned : (a s : ℕ) → a % s ≡ 0 → (a + s) % s ≡ 0
next_aligned a s e = add-mod_right a s ∙ e

pub take_slot-InBlock :
    (h : Heap)
    → IsCarving h.pool
    → h.pool.cur_slot < h.pool.last_slot
    → InBlock (take_slot h).1.pool (take_slot h).0 × IsCarving (take_slot h).1.pool
unfolding take_slot
take_slot-InBlock h v lt =
    let whole : h.pool.slot_size / 8 * 8 ≡ h.pool.slot_size = omega (arith, v.slot_whole) in
    let behind = v.behind_header lt in
    let inside = v.before_end lt in
    rw whole (
      record {
        behind_header = behind;
        fits = omega (arith, inside);
        slot_aligned = v.aligned lt;
        passed = refl;
      },
      record {
        slot_whole = v.slot_whole;
        slot_some = v.slot_some;
        block_ample = v.block_ample;
        behind_header = λ h'. omega (arith, behind);
        before_end = λ h'. inside;
        aligned = λ h'. next_aligned h.pool.cur_slot h.pool.slot_size (v.aligned lt);
      },
    )

-- In a pool that is ready (whole slots, blocks with room for two, what is left of the newest
-- block behind its header), the slot that `allocate` cuts lies in the newest block behind the
-- header, is aligned to the slot size, ends where the next one begins, and the pool stays ready.
pub carve-InBlock :
    (new_block : Ptr) (h : Heap)
    → IsCarving h.pool
    → InBlock (carve new_block h).1.pool (carve new_block h).0
      × IsCarving (carve new_block h).1.pool
unfolding carve
carve-InBlock new_block h v = elim (Bool-cases (leb h.pool.last_slot h.pool.cur_slot)) [
  | inl used ↦
      let (v', lt) = allocate_new_block-room new_block h v in
      rw used (take_slot-InBlock (allocate_new_block new_block h) v' lt)
  | inr left ↦ rw left (take_slot-InBlock h v (ground arith))
]

-- A pool of the default block size is ready for every slot size that is a positive multiple of 8 up
-- to 512.
pub init-IsCarving : (m : ℕ) → 0 < m → m ≤ 64 → IsCarving (init (memory_pool 4096) (m * 8))
unfolding init
init-IsCarving m pos le = record {
  slot_whole = omega arith;
  slot_some = omega arith;
  block_ample = omega arith;
  behind_header = λ h. absurd (omega arith);
  before_end = λ h. absurd (omega arith);
  aligned = λ h. absurd (omega arith);
}
