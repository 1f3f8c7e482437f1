-- ===== src/V1/Pool/Lifetime.antt =====
-- A pool of version 1 from its first use on, for one thread and any client.
use my_memory_pool.Prelude.{
  Ptr, null, update, ℕ, ◌+◌, ◌*◌, ◌%◌, ◌≤◌, ◌<◌, ◌≡◌, true, List, [], ◌∷◌, ◌&&◌, ◌==◌, leb,
  if◌then◌else◌,
}
use my_memory_pool.Prelude.Blocks.{has}
use my_memory_pool.Prelude.Blocks.Held.{without}
use my_memory_pool.V1.Pool.{Heap, memory_pool, init, allocate, deallocate}
use my_memory_pool.V1.Pool.Chain.{Fresh}

-- The blocks after `allocate`.
abbrev pub blocks_after : (new_block : Ptr) → Heap → List Ptr → List Ptr
blocks_after new_block h bs =
    if h.pool.free_list.ptr == null && leb h.pool.last_slot h.pool.cur_slot
    then new_block ∷ bs
    else bs

-- A pool that was initialised and used, with the blocks it got, the newest first, and the slots
-- that its client holds. A client gives back what it holds and writes inside of it.
pub data Used : (blocks held : List Ptr) → Heap → Type 0 where
  initialised :
      (next : Ptr → Ptr) (block_size slot_size : ℕ)
      → slot_size % 8 ≡ 0
      → 0 < slot_size
      → 8 + 2 * slot_size ≤ block_size
      → Used [] [] (record { next = next; pool = init (memory_pool block_size) slot_size })
  take :
      {bs held : List Ptr} {h : Heap} (new_block : Ptr)
      → Used bs held h
      → Fresh h.pool.block_size new_block bs
      → Used
          (blocks_after new_block h bs)
          ((allocate new_block h).0 ∷ held)
          (allocate new_block h).1
  give :
      {bs held : List Ptr} {h : Heap} (slot : Ptr)
      → Used bs held h
      → has slot held ≡ true
      → Used bs (without slot held) (deallocate slot h)
  write :
      {bs held : List Ptr} {h : Heap} (slot at word : Ptr)
      → Used bs held h
      → has slot held ≡ true
      → slot ≤ at
      → at < slot + h.pool.slot_size
      → Used bs held (record h { next = update h.next at word })
