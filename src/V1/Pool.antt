-- ===== src/V1/Pool.antt =====
-- The class `MemoryPool` of `v1/include/MemoryPool.h` and `v1/src/MemoryPool.cpp`, for one thread:
-- then each compare-and-swap succeeds at once. `FreeList` has the list for any number of threads.
-- What `operator new` answers is an argument.
pub mod Geometry
pub mod Recycle
pub mod Chain
pub mod Lifetime
pub mod Slots
pub mod Ownership
pub mod Exclusive
pub mod Destroy
use my_memory_pool.Prelude.{
  Ptr, null, update, ℕ, zero, suc, ◌+◌, ◌-◌, ◌*◌, ◌/◌, ◌%◌, Option, none, some, List, [], ◌∷◌, leb,
  ◌==◌, if◌then◌else◌, add64,
}

-- sizeof(Slot) and sizeof(Slot*)
abbrev pub slot_bytes : ℕ
slot_bytes = 8

pub record TaggedPtr : Type 0 where
  pub ptr : Ptr
  pub tag : ℕ

pub record MemoryPool : Type 0 where
  pub block_size : ℕ
  pub slot_size : ℕ
  pub first_block : Ptr
  pub cur_slot : Ptr
  pub last_slot : Ptr
  pub free_list : TaggedPtr

-- The memory that the pool writes, `slot->next` at each address, beside the pool.
pub record Heap : Type 0 where
  pub next : Ptr → Ptr
  pub pool : MemoryPool

abbrev pub empty_list : TaggedPtr
empty_list = record { ptr = null; tag = 0 }

-- the constructor
abbrev pub memory_pool : ℕ → MemoryPool
memory_pool block_size = record {
  block_size = block_size;
  slot_size = 0;
  first_block = null;
  cur_slot = null;
  last_slot = null;
  free_list = empty_list;
}

unfoldable pub init : MemoryPool → ℕ → MemoryPool
init pool size = record pool {
  slot_size = size;
  first_block = null;
  cur_slot = null;
  last_slot = null;
  free_list = empty_list;
}

unfoldable pub pad_pointer : (p align : ℕ) → ℕ
pad_pointer p align = align - p % align

-- `new_block` is the block that `operator new` returned.
unfoldable pub allocate_new_block : (new_block : Ptr) → Heap → Heap
unfolding pad_pointer
allocate_new_block new_block h =
    let body = new_block + slot_bytes in
    record {
      next = update h.next new_block h.pool.first_block;
      pool = record (h.pool) {
        first_block = new_block;
        cur_slot = body + pad_pointer body h.pool.slot_size;
        last_slot = new_block + h.pool.block_size - h.pool.slot_size + 1;
      };
    }

unfoldable pub push_free_list : Ptr → Heap → Heap
push_free_list slot h = record {
  next = update h.next slot h.pool.free_list.ptr;
  pool = record (h.pool) { free_list = record { ptr = slot; tag = add64 h.pool.free_list.tag 1 } };
}

unfoldable pub pop_free_list : Heap → Ptr × Heap
pop_free_list h = if h.pool.free_list.ptr == null then (null, h) else (
  h.pool.free_list.ptr,
  record h {
    pool = record (h.pool) {
      free_list = record { ptr = h.next h.pool.free_list.ptr; tag = add64 h.pool.free_list.tag 1 };
    };
  },
)

-- The slot at `curSlot_`, which moves on by one slot.
unfoldable pub take_slot : Heap → Ptr × Heap
take_slot h = (
  h.pool.cur_slot,
  record h {
    pool = record (h.pool) {
      cur_slot = h.pool.cur_slot + h.pool.slot_size / slot_bytes * slot_bytes;
    };
  },
)

-- The critical section of `allocate`.
unfoldable pub carve : (new_block : Ptr) → Heap → Ptr × Heap
carve new_block h =
    take_slot (if leb h.pool.last_slot h.pool.cur_slot then allocate_new_block new_block h else h)

unfoldable pub allocate : (new_block : Ptr) → Heap → Ptr × Heap
allocate new_block h =
    let (slot, h') = pop_free_list h in if slot == null then carve new_block h' else (slot, h')

unfoldable pub deallocate : Ptr → Heap → Heap
deallocate ptr h = if ptr == null then h else push_free_list ptr h

-- The destructor: the blocks that it deletes, or `none` if `fuel` blocks are not all.
unfoldable pub delete_blocks : (fuel : ℕ) → (Ptr → Ptr) → Ptr → Option (List Ptr)
delete_blocks zero next cur = none
delete_blocks (suc fuel) next cur =
    let rest = delete_blocks fuel next (next cur) in
    if cur == null then some [] else elim rest [ none ↦ none | some deleted ↦ some (cur ∷ deleted) ]
