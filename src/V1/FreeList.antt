-- ===== src/V1/FreeList.antt =====
-- `pushFreeList` and `popFreeList` of `v1/src/MemoryPool.cpp`, for any number of threads.
--
-- One step is one access to shared memory: the load of the tagged head, the load or store of
-- `slot->next`, a compare-and-swap, or a write of the user to a slot that he owns. A weak
-- compare-and-swap may fail for no reason. Accesses are sequentially consistent. The tag is a
-- number here: with its 64 bits it would take 2^64 operations during one attempt to wrap round.
pub mod Invariant
pub mod Reachable
use my_memory_pool.Prelude.{Ptr, null, update, ℕ, ◌+◌, ◌≡◌, ◌≢◌}
use my_memory_pool.V1.Pool.{TaggedPtr}

abbrev pub tagged : Ptr → ℕ → TaggedPtr
tagged p n = record { ptr = p; tag = n }

-- Where a thread stands, with its locals: `oldHead`, `newHead.ptr` and `slot`.
pub data Pc : Type 0 where
  idle : Pc
  -- popFreeList, after the load of the head and after the load of its link
  popping : (old : TaggedPtr) → Pc
  swapping : (old : TaggedPtr) (new_ptr : Ptr) → Pc
  -- pushFreeList, called, after the load of the head and after the store of the link
  pushing : (slot : Ptr) (old : TaggedPtr) → Pc
  linked : (slot : Ptr) (old : TaggedPtr) → Pc

pub record Shared : Type 0 where
  pub head : TaggedPtr
  pub next : Ptr → Ptr

abbrev pub set_next : Shared → Ptr → Ptr → Shared
set_next m p q = record m { next = update m.next p q }

-- A compare-and-swap that succeeds installs the new pointer with the next tag.
abbrev pub swap : Shared → Ptr → TaggedPtr → Shared
swap m p old = record m { head = tagged p (old.tag + 1) }

-- One access of one thread. A failed compare-and-swap loads the head again.
pub data Move (m : Shared) : Pc → Shared → Pc → Type 0 where
  pop_start : Move m idle m (popping m.head)
  pop_empty : {old : TaggedPtr} → old.ptr ≡ null → Move m (popping old) m idle
  pop_read :
      {old : TaggedPtr} → old.ptr ≢ null → Move m (popping old) m (swapping old (m.next old.ptr))
  pop_retry : {old : TaggedPtr} {n : Ptr} → Move m (swapping old n) m (popping m.head)
  pop_done :
      {old : TaggedPtr} {n : Ptr} → m.head ≡ old → Move m (swapping old n) (swap m n old) idle
  push_start : (slot : Ptr) → Move m idle m (pushing slot m.head)
  push_link :
      {slot : Ptr} {old : TaggedPtr}
      → Move m (pushing slot old) (set_next m slot old.ptr) (linked slot old)
  push_retry : {slot : Ptr} {old : TaggedPtr} → Move m (linked slot old) m (pushing slot m.head)
  push_done :
      {slot : Ptr} {old : TaggedPtr}
      → m.head ≡ old
      → Move m (linked slot old) (swap m slot old) idle
