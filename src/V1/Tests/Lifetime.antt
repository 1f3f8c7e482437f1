-- ===== src/V1/Tests/Lifetime.antt =====
-- A pool of version 1 with blocks of 200 bytes and slots of 64, so two slots to a block.
use my_memory_pool.Prelude.{Ptr, update, ◌≤◌, ◌≡◌, ◌≢◌, refl, arith, true, some, [], ◌∷◌, inr}
use my_memory_pool.Prelude.Blocks.{has}
use my_memory_pool.Prelude.Blocks.Held.{without, Distinct}
use my_memory_pool.V1.Pool.{
  Heap, memory_pool, init, pad_pointer, allocate_new_block, push_free_list, pop_free_list,
  take_slot, carve, allocate, deallocate, delete_blocks,
}
use my_memory_pool.V1.Pool.Chain.{Clear, Fresh}
use my_memory_pool.V1.Pool.Slots.{Placed}
use my_memory_pool.V1.Pool.Lifetime.{Used, initialised, take, give, write}
use my_memory_pool.V1.Pool.Exclusive.{Used-exclusive}
use my_memory_pool.V1.Pool.Destroy.{delete_blocks-Used}

abbrev new_pool : Heap
new_pool = record { next = λ _. 0; pool = init (memory_pool 200) 64 }

-- Two slots are taken, the first is written to, given back and taken again, and a third needs a
-- new block.
abbrev two_taken : Heap
two_taken = (allocate 9000 (allocate 8192 new_pool).1).1

abbrev written : Heap
written = record two_taken { next = update two_taken.next 8264 7 }

abbrev used_pool : Heap
used_pool = (allocate 16384 (allocate 9000 (deallocate 8256 written)).1).1

-- A block at `a` that lies behind the one at 8192.
behind_first : (a : Ptr) → 8392 ≤ a → Fresh 200 a (8192 ∷ [])
behind_first a le = record { some_block = λ e. omega (arith, e); clear = λ b h. inr (ground arith) }

first_block : Fresh 200 8192 []
first_block = record { some_block = λ e. absurd (omega (arith, e)); clear = λ b h. cc }

two_taken-Used : Used (8192 ∷ []) (8320 ∷ 8256 ∷ []) two_taken
unfolding init pad_pointer allocate_new_block push_free_list pop_free_list take_slot carve allocate
two_taken-Used =
    take 9000
      (take 8192 (initialised (λ _. 0) 200 64 (omega arith) (omega arith) (omega arith))
        first_block)
      (behind_first 9000 (omega arith))

used_pool-Used : Used (16384 ∷ 8192 ∷ []) (16448 ∷ 8256 ∷ 8320 ∷ []) used_pool
unfolding init pad_pointer allocate_new_block push_free_list pop_free_list take_slot carve allocate
    deallocate without
used_pool-Used =
    take 16384
      (take 9000
        (give 8256 (write 8256 8264 7 two_taken-Used refl (omega arith) (omega arith)) refl)
        (behind_first 9000 (omega arith)))
      (behind_first 16384 (omega arith))

Used-exclusive_example :
    Distinct (16448 ∷ 8256 ∷ 8320 ∷ [])
    × ((p : Ptr)
        → has p (16448 ∷ 8256 ∷ 8320 ∷ []) ≡ true
        → Placed (16384 ∷ 8192 ∷ []) used_pool.pool p)
    × ((p q : Ptr)
        → has p (16448 ∷ 8256 ∷ 8320 ∷ []) ≡ true
        → has q (16448 ∷ 8256 ∷ 8320 ∷ []) ≡ true
        → p ≢ q
        → Clear used_pool.pool.slot_size p q)
    × ((new_block p : Ptr)
        → Fresh used_pool.pool.block_size new_block (16384 ∷ 8192 ∷ [])
        → has p (16448 ∷ 8256 ∷ 8320 ∷ []) ≡ true
        → Clear used_pool.pool.slot_size p (allocate new_block used_pool).0)
Used-exclusive_example = Used-exclusive used_pool-Used

delete_blocks-Used_example :
    delete_blocks 3 used_pool.next used_pool.pool.first_block ≡ some (16384 ∷ 8192 ∷ [])
delete_blocks-Used_example =
    delete_blocks-Used (16384 ∷ 8192 ∷ []) (16448 ∷ 8256 ∷ 8320 ∷ []) used_pool 3 used_pool-Used
      (omega arith)
