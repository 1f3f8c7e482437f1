-- ===== src/V3/ThreadCache/Reuse.antt =====
-- The fast path of a thread: a freed block is the next one handed out, with no call of the layers
-- below.
use my_memory_pool.Prelude.{
  Ptr, null, update, ℕ, ◌+◌, ◌≤◌, ◌<◌, ◌≡◌, refl, ◌≢◌, true, false, arith, ◌==◌, leb, ltb, ne→==,
  ==_refl,
}
use my_memory_pool.V3.SizeClass.{max_bytes, free_list_size, get_size, get_index}
use my_memory_pool.V3.SizeClass.Laws.{round_up_small, get_index_least, free_list_size_lem}
use my_memory_pool.V3.World.{World, Platform, done, pure, ◌>>=◌, store}
use my_memory_pool.V3.World.Rules.{load-ok}
use my_memory_pool.Prelude.Command.{Returns, returns}
use my_memory_pool.V3.ThreadCache.{
  ThreadCache, max_cached_blocks, should_return_to_central, set_list, allocate, allocate_small,
  hand_out, deallocate_sized, deallocate_small, accept_block, push_block,
}

module _ (os : Platform) (unguarded : os.debug_guards ≡ false) where
  -- What the fast paths do, one block pushed and one taken.
  pushed : ThreadCache → ℕ → Ptr → ThreadCache
  pushed t index ptr = set_list t index ptr (t.free_list_size index + 1)

  accept_block-pushed :
      (t : ThreadCache) (index : ℕ) (ptr : Ptr) (w : World)
      → ptr ≢ null
      → t.free_list_size index < max_cached_blocks (get_size index)
      → accept_block os t index ptr w
        ≡ done
            (true, pushed t index ptr)
            (record w { word = update w.word ptr (t.free_list index) })
  unfolding accept_block push_block pushed should_return_to_central store
  accept_block-pushed t index ptr w ne room =
      let e : (ptr == null) ≡ false = ne→== ptr null ne in
      let same : (index == index) ≡ true = ground arith in
      let below : ltb (max_cached_blocks (get_size index)) (t.free_list_size index + 1) ≡ false =
        ground arith in
      rw (e, same, below) refl

  hand_out-unguarded : (ptr : Ptr) → hand_out os ptr ≡ pure ptr
  unfolding hand_out
  hand_out-unguarded ptr = rw unguarded

  allocate_small-pushed :
      (t : ThreadCache) (index : ℕ) (ptr : Ptr) (w : World)
      → ptr ≢ null
      → w.word ptr ≡ t.free_list index
      → Returns
          (λ (p, t') _.
            (p ≡ ptr)
            × ((j : ℕ) → t'.free_list j ≡ t.free_list j)
            × ((j : ℕ) → t'.free_list_size j ≡ t.free_list_size j))
          (allocate_small os (pushed t index ptr) index w)
  unfolding allocate_small pushed
  allocate_small-pushed t index ptr w ne top =
      let some_block : (ptr == null) ≡ false = ne→== ptr null ne in
      rw (==_refl index, some_block, load-ok _ ptr ne, hand_out-unguarded ptr)
        (returns (refl, (λ j. ground arith), (λ j. ground arith)))

  small_index : (size : ℕ) → 0 < size → size ≤ max_bytes → get_index size < 56
  small_index size pos le = omega (arith, (get_index_least size pos le).0, free_list_size_lem)

  pub deallocate_sized-accept :
      (t : ThreadCache) (ptr : Ptr) (size : ℕ)
      → ptr ≢ null
      → 0 < size
      → size ≤ max_bytes
      → deallocate_sized os t ptr size ≡ accept_block os t (get_index size) ptr
  unfolding deallocate_sized deallocate_small
  deallocate_sized-accept t ptr size ne pos le =
      let some_block : (ptr == null) ≡ false = ne→== ptr null ne in
      let given : (size == 0) ≡ false = ground arith in
      let small : ltb max_bytes size ≡ false = ground arith in
      let class : leb free_list_size (get_index size) ≡ false =
        ground (arith, small_index size pos le, free_list_size_lem) in
      simp (given, some_block, small, (round_up_small size pos le).3, class, unguarded)

  -- With the guards off and room in the list, a block that a thread frees with its size (1 to
  -- MAX_BYTES) is the one that it gets next for any size of the same class, and its lists are as
  -- they were.
  pub allocate-deallocate_sized :
      (t : ThreadCache) (ptr : Ptr) (size next_size : ℕ) (w : World)
      → ptr ≢ null
      → 0 < size
      → size ≤ max_bytes
      → 0 < next_size
      → next_size ≤ max_bytes
      → get_index next_size ≡ get_index size
      → t.free_list_size (get_index size) < max_cached_blocks (get_size (get_index size))
      → Returns
          (λ (p, t') _.
            (p ≡ ptr)
            × ((j : ℕ) → t'.free_list j ≡ t.free_list j)
            × ((j : ℕ) → t'.free_list_size j ≡ t.free_list_size j))
          ((do (freed, t') ← deallocate_sized os t ptr size; allocate os t' next_size) w)
  unfolding allocate
  allocate-deallocate_sized t ptr size next_size w ne pos le next_pos next_le same room =
      let given : (next_size == 0) ≡ false = ground arith in
      let small : ltb max_bytes next_size ≡ false = ground arith in
      rw
        (
          deallocate_sized-accept t ptr size ne pos le,
          accept_block-pushed t (get_index size) ptr w ne room,
          given,
          small,
          same,
        )
        (allocate_small-pushed t (get_index size) ptr _ ne (ground arith))
