-- ===== src/V2/ThreadCache.antt =====
-- `v2/src/ThreadCache.cpp` and the API of `v2/include/MemoryPool.h`. The cache of the calling
-- thread is an argument, and a function that changes it returns the new one. The walks along the
-- links of blocks take `fuel`, as in the central cache.
pub mod Cut
pub mod Stack
pub mod Refill
pub mod Stale
use my_memory_pool.Prelude.{
  Ptr, null, update, ℕ, zero, suc, ◌+◌, ◌-◌, ◌*◌, ◌/◌, min, max, Bool, not, ◌&&◌, ◌||◌, ltb, leb,
  ◌==◌, if◌then◌else◌, add64, dec64,
}
use my_memory_pool.V2.SizeTable.{alignment, max_bytes, free_list_size, get_size}
use my_memory_pool.V2.SizeClass.{get_index, round_up}
use my_memory_pool.V2.World.{
  Platform, out_of_fuel, Cmd, pure, ◌>>=◌, ◌>>◌, skip, load, store, malloc, free,
}
use my_memory_pool.V2.CentralCache.{fetch_range, return_range}

-- The two arrays; an index is always that of a size class.
pub record ThreadCache : Type 0 where
  pub free_list : ℕ → Ptr
  pub free_list_size : ℕ → ℕ

abbrev pub empty_cache : ThreadCache
empty_cache = record { free_list = λ _. null; free_list_size = λ _. 0 }

abbrev pub set_list : ThreadCache → (index : ℕ) → Ptr → ℕ → ThreadCache
set_list t index head size = record {
  free_list = update t.free_list index head;
  free_list_size = update t.free_list_size index size;
}

-- How many blocks of `size` bytes a list may hold.
unfoldable pub max_blocks : ℕ → ℕ
max_blocks size = min (max 8 (32 * 1024 / size)) 256

unfoldable pub should_return_to_central_cache : ThreadCache → ℕ → Bool
should_return_to_central_cache t index = ltb (max_blocks (get_size index)) (t.free_list_size index)

-- How many blocks a list of `batch_num` keeps when it is cut.
abbrev pub keep_num : ℕ → ℕ
keep_num batch_num = max (batch_num / 4) 1

-- The blocks on the list from `current` on, after `remain` others.
unfoldable pub count_links : (fuel remain : ℕ) → Ptr → Cmd ℕ
count_links zero remain current = λ _. out_of_fuel
count_links (suc fuel) remain current =
    if current == null
    then pure remain
    else do next ← load current; count_links fuel (remain + 1) next

-- The walk to the last block that is kept: `left` links from `node`, after `i` of them; nullptr if
-- the list ends before. With it comes `returnNum`, which an early end corrects.
unfoldable pub split_node : (left i : ℕ) → Ptr → (batch_num return_num : ℕ) → Cmd (Ptr × ℕ)
split_node zero i node batch_num return_num = pure (node, return_num)
split_node (suc left) i node batch_num return_num = do
  next ← load node
  if next == null
      then pure (null, batch_num - (i + 1))
      else split_node left (i + 1) next batch_num return_num

module _ (os : Platform) (fuel : ℕ) where
  unfoldable pub fetch_from_central_cache : ThreadCache → ℕ → Cmd (Ptr × ThreadCache)
  fetch_from_central_cache t index = do
    start ← fetch_range os index
    if start == null then pure (null, t) else do
      next ← load start
      remain ← count_links fuel 0 next
      pure (start, set_list t index next (t.free_list_size index + remain))

  unfoldable pub allocate_small : ThreadCache → ℕ → Cmd (Ptr × ThreadCache)
  allocate_small t index =
      let ptr = t.free_list index in
      if ptr == null
      then fetch_from_central_cache t index
      else do rest ← load ptr; pure (ptr, set_list t index rest (dec64 (t.free_list_size index)))

  unfoldable pub allocate : ThreadCache → ℕ → Cmd (Ptr × ThreadCache)
  allocate t requested =
      let size = if requested == 0 then alignment else requested in
      if ltb max_bytes size
      then (do ptr ← malloc os size; pure (ptr, t))
      else allocate_small t (get_index size)

  -- The list from `start` is cut behind `split`, its last block that stays.
  unfoldable pub cut_list :
      ThreadCache → (start split : Ptr) (index keep return_num size : ℕ) → Cmd ThreadCache
  cut_list t start split index keep return_num size = do
    next ← load split
    store split null
    (if ltb 0 return_num && not (next == null)
        then return_range os fuel next (return_num * size) index
        else skip)
    pure (set_list t index start keep)

  unfoldable pub return_to_central_cache : ThreadCache → (start : Ptr) (size : ℕ) → Cmd ThreadCache
  return_to_central_cache t start size =
      let index = get_index size in
      let batch_num = t.free_list_size index in
      let keep = keep_num batch_num in
      if leb batch_num 1 then pure t else do
        (split, return_num) ← split_node (keep - 1) 0 start batch_num (batch_num - keep)
        if split == null
            then pure t
            else cut_list t start split index keep return_num (round_up size)

  unfoldable pub deallocate : ThreadCache → (ptr : Ptr) (size : ℕ) → Cmd ThreadCache
  deallocate t ptr size =
      let index = get_index size in
      if ltb max_bytes size then (do free ptr; pure t) else do
        store ptr (t.free_list index)
        let t' = set_list t index ptr (t.free_list_size index + 1)
        if should_return_to_central_cache t' index
            then return_to_central_cache t' (t'.free_list index) size
            else pure t'

  -- The loop of the destructor with `left` classes to go.
  unfoldable pub return_lists : (left index : ℕ) → ThreadCache → Cmd ThreadCache
  return_lists zero index t = pure t
  return_lists (suc left) index t =
      if not (t.free_list index == null) && ltb 0 (t.free_list_size index)
      then (do
        return_range os fuel (t.free_list index) (t.free_list_size index * get_size index) index
        return_lists left (index + 1) (set_list t index null 0))
      else return_lists left (index + 1) t

  unfoldable pub destroy : ThreadCache → Cmd ThreadCache
  destroy t = return_lists free_list_size 0 t
