-- ===== src/V1/Tests.antt =====
-- Version 1 at concrete pools, requests and steps.
mod Lifetime
use my_memory_pool.Prelude.{
  some, inr, Ptr, null, ℕ, ◌+◌, ◌*◌, ◌≤◌, ◌<◌, ◌≡◌, refl, arith, List, [], ◌∷◌,
}
use my_memory_pool.V1.Pool.{
  Heap, memory_pool, init, pad_pointer, allocate_new_block, push_free_list, pop_free_list,
  take_slot, carve, allocate, deallocate, delete_blocks,
}
use my_memory_pool.V1.Pool.Geometry.{InBlock, IsCarving, init-IsCarving, carve-InBlock}
use my_memory_pool.V1.Pool.Recycle.{allocate-deallocate}
use my_memory_pool.V1.HashBucket.{
  Buckets, memory_pool_num, bucket_index, init_memory_pool, bucket_fits,
}
use my_memory_pool.V1.FreeList.{
  Pc, idle, pushing, linked, Shared, tagged, set_next, swap, push_start, push_link, push_done,
}
use my_memory_pool.V1.FreeList.Invariant.{Inv, Owned, set_pc, Move-Inv}
use my_memory_pool.V1.FreeList.Reachable.{Reachable, start, step, Reachable-Inv}

abbrev pool_of_64 : Heap
pool_of_64 = record { next = λ _. 0; pool = init (memory_pool 4096) (8 * 8) }

abbrev no_pools : Buckets
no_pools = record { next = λ _. 0; pools = λ _. memory_pool 4096 }

bucket_fits_example :
    (bucket_index 100 < memory_pool_num)
    × (100 ≤ ((init_memory_pool no_pools).pools (bucket_index 100)).slot_size)
    × (((init_memory_pool no_pools).pools (bucket_index 100)).slot_size < 100 + 8)
bucket_fits_example = bucket_fits no_pools 100 (omega arith) (omega arith)

abbrev at_start : Shared
at_start = record { head = tagged null 0; next = λ _. 0 }

abbrev no_thread : ℕ → Pc
no_thread i = idle

fresh_slot : Owned [] no_thread 64
fresh_slot = (ground arith, refl, λ j. refl)

Move-Inv_example :
    (ys : List Ptr) × Inv ys at_start (set_pc no_thread 3 (pushing 64 (tagged null 0))) × (ys ≡ [])
Move-Inv_example = Move-Inv (Reachable-Inv (start (λ _. 0))) 3 (push_start 64) refl fresh_slot

-- Thread 3 pushes the slot 64.
abbrev linked_shared : Shared
linked_shared = set_next at_start 64 null

pushed : Reachable (64 ∷ []) (swap linked_shared 64 (tagged null 0)) (
    set_pc
      (set_pc (set_pc no_thread 3 (pushing 64 (tagged null 0))) 3 (linked 64 (tagged null 0)))
      3
      idle)
pushed =
    step 3 (push_done refl)
      (step 3 (push_link) (step 3 (push_start 64) (start (λ _. 0)) refl fresh_slot refl) refl tt
        refl)
      refl tt refl

Reachable-Inv_example : Inv (64 ∷ []) (swap linked_shared 64 (tagged null 0)) (
    set_pc
      (set_pc (set_pc no_thread 3 (pushing 64 (tagged null 0))) 3 (linked 64 (tagged null 0)))
      3
      idle)
Reachable-Inv_example = Reachable-Inv pushed
