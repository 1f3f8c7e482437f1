-- ===== src/V1/Pool/Recycle.antt =====
-- A freed slot comes back first.
use my_memory_pool.Prelude.{Ptr, null, ◌≡◌, refl, ◌≢◌, ne→==, ==_refl}
use my_memory_pool.V1.Pool.{Heap, push_free_list, pop_free_list, allocate, deallocate}

-- For one thread and a slot that is not at nullptr, the slot given back is the one handed out
-- next, and the head of the free list, the newest block and the place of the next fresh slot are
-- as they were.
pub allocate-deallocate :
    (new_block ptr : Ptr) (h : Heap)
    → ptr ≢ null
    → ((allocate new_block (deallocate ptr h)).0 ≡ ptr)
      × ((allocate new_block (deallocate ptr h)).1.pool.free_list.ptr ≡ h.pool.free_list.ptr)
      × ((allocate new_block (deallocate ptr h)).1.pool.first_block ≡ h.pool.first_block)
      × ((allocate new_block (deallocate ptr h)).1.pool.cur_slot ≡ h.pool.cur_slot)
unfolding allocate deallocate push_free_list pop_free_list
allocate-deallocate new_block ptr h ne =
    let e = ne→== ptr null ne in rw (e, e, e) (refl, rw (==_refl ptr) refl, refl, refl)
