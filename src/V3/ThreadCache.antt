-- ===== src/V3/ThreadCache.antt =====
-- `v3/src/ThreadCache.cpp`. The cache of the calling thread is an argument, and a function that
-- changes it returns the new one.
pub mod Limits
pub mod Aligned
pub mod Reuse
pub mod Large
pub mod Shelf
pub mod Take
pub mod Flush
pub mod Release
pub mod Client
pub mod Balance
pub mod Exclusive
pub mod Begin
pub mod Refusal
use my_memory_pool.Prelude.{
  Ptr, null, update, ℕ, zero, suc, ◌+◌, ◌-◌, ◌*◌, ◌/◌, ◌%◌, min, max, bit_and, Bool, true, false,
  not, ◌&&◌, ◌||◌, [], ltb, leb, ◌==◌, if◌then◌else◌, length, get_or, set, size_max, dec64,
}
use my_memory_pool.V3.SizeClass.{
  alignment, max_bytes, free_list_size, get_size, get_index, round_up,
}
use my_memory_pool.V3.World.{
  Span, Platform, Cmd, pure, ◌>>=◌, ◌>>◌, skip, read_span, write_span, load, store, page_size,
}
use my_memory_pool.V3.PageCache.{find_span, allocate_span, deallocate_span}
use my_memory_pool.V3.CentralCache.{fetch_range, return_range}
use my_memory_pool.V3.Counters.{record_central_refill, record_central_flush}

-- The two arrays; an index is always that of a size class.
pub record ThreadCache : Type 0 where
  pub free_list : ℕ → Ptr
  pub free_list_size : ℕ → ℕ

abbrev pub empty_cache : ThreadCache
empty_cache = record { free_list = λ _. null; free_list_size = λ _. 0 }

abbrev pub set_list : ThreadCache → (index : ℕ) → Ptr → ℕ → ThreadCache
set_list t index head size = record {
  free_list = update t.free_list index head;
  free_list_size = update t.free_list_size index size;
}

unfoldable pub max_cached_blocks : ℕ → ℕ
max_cached_blocks size =
    let n = max 1 (256 * 1024 / max size alignment) in
    if leb size 32
    then 4096
    else if leb size 64
    then 2048
    else if leb size 256
    then 1024
    else if leb size 1024
    then 256
    else if leb size 4096
    then 512
    else min n 128

unfoldable pub batch_limit : ℕ → ℕ
batch_limit size =
    if leb size 32
    then 512
    else if leb size 64
    then 256
    else if leb size 256
    then 128
    else if leb size 1024
    then 32
    else 16

unfoldable pub get_batch_num : ℕ → ℕ
unfolding batch_limit
get_batch_num size = max 1 (min (max 1 (64 * 1024 / max size alignment)) (batch_limit size))

-- How many blocks a list keeps when it is cut.
abbrev pub keep_num : (batch_num size : ℕ) → ℕ
keep_num batch_num size = min (max (batch_num / 2) 1) (max_cached_blocks size)

unfoldable pub should_return_to_central : ThreadCache → ℕ → Bool
should_return_to_central t index = ltb (max_cached_blocks (get_size index)) (t.free_list_size index)

-- The block number of `ptr` in `span`, or -1 if no block begins there.
unfoldable pub debug_block_index : Span → Ptr → ℕ
debug_block_index span ptr =
    if ltb ptr span.page_addr
    then size_max
    else (let offset = ptr - span.page_addr in
        if (span.block_size == 0) || not (offset % span.block_size == 0)
        then size_max
        else offset / span.block_size)

-- A walk of `left` links; nullptr if the list ends before.
unfoldable pub walk_list : (left : ℕ) → Ptr → Cmd Ptr
walk_list zero node = pure node
walk_list (suc left) node =
    if node == null then pure null else do next ← load node; walk_list left next

module _ (os : Platform) where
  -- The flag of a block is set if it was clear, and the span exists.
  unfoldable pub mark_block : Ptr → Ptr → Span → Cmd Bool
  mark_block p ptr span =
      let block = debug_block_index span ptr in
      if leb (length span.debug_alloc_map) block
      then pure false
      else if not (get_or span.debug_alloc_map block 0 == 0)
      then pure false
      else write_span p (record span { debug_alloc_map = set span.debug_alloc_map block 1 })
        >> pure true

  unfoldable pub debug_mark_allocated : Ptr → Ptr → Cmd Bool
  debug_mark_allocated p ptr =
      if not os.debug_guards || p == null
      then pure true
      else do span ← read_span p; if span.is_large then pure true else mark_block p ptr span

  -- The flag of a block is cleared if it was set.
  unfoldable pub unmark_block : Ptr → Ptr → Span → Cmd Bool
  unmark_block p ptr span =
      let block = debug_block_index span ptr in
      if leb (length span.debug_alloc_map) block
      then pure false
      else if get_or span.debug_alloc_map block 0 == 0
      then pure false
      else write_span p (record span { debug_alloc_map = set span.debug_alloc_map block 0 })
        >> pure true

  unfoldable pub unmark_large : Ptr → Ptr → Span → Cmd Bool
  unmark_large p ptr span =
      if not (ptr == span.page_addr) || not span.debug_large_allocated
      then pure false
      else write_span p (record span { debug_large_allocated = false }) >> pure true

  -- `expected` is -1 where any class will do.
  unfoldable pub debug_validate_and_mark_freed : (p ptr expected : ℕ) → Cmd Bool
  debug_validate_and_mark_freed p ptr expected =
      if not os.debug_guards then pure true else if p == null then pure false else do
        span ← read_span p
        if span.is_large
            then unmark_large p ptr span
            else if not (expected == size_max) && not (span.size_class == expected)
            then pure false
            else unmark_block p ptr span

  -- Under the guards, a block that is handed out is marked, and refused if it is marked already.
  unfoldable pub hand_out : Ptr → Cmd Ptr
  hand_out ptr = if not os.debug_guards then pure ptr else do
    p ← find_span os ptr
    marked ← debug_mark_allocated p ptr
    pure (if marked then ptr else null)

  unfoldable pub count_refill : ℕ → Cmd (Unit {0})
  count_refill fetched = if ltb 0 fetched then record_central_refill os fetched else skip

  unfoldable pub fetch_from_central : ThreadCache → ℕ → Cmd (Ptr × ThreadCache)
  fetch_from_central t index = do
    (start, fetched) ← fetch_range os index (get_batch_num (get_size index))
    if start == null then pure (null, t) else do
      rest ← load start
      count_refill fetched
      result ← hand_out start
      pure (
        result,
        set_list t index rest (t.free_list_size index + (if ltb 0 fetched then fetched - 1 else 0)),
      )

  -- A request above MAX_BYTES has a span of its own.
  unfoldable pub allocate_large : ℕ → Cmd Ptr
  allocate_large size = if ltb (size_max - (page_size os - 1)) size then pure null else do
    p ← allocate_span os ((size + page_size os - 1) / page_size os)
    if p == null then pure null else do
      span ← read_span p
      write_span p (record span {
        is_large = true;
        block_size = size;
        block_count = 1;
        free_count = 0;
        size_class = size_max;
        debug_alloc_map = [];
        debug_large_allocated = true;
      })
      pure span.page_addr

  unfoldable pub allocate_small : ThreadCache → ℕ → Cmd (Ptr × ThreadCache)
  allocate_small t index = if t.free_list index == null then fetch_from_central t index else do
    rest ← load (t.free_list index)
    result ← hand_out (t.free_list index)
    pure (result, set_list t index rest (dec64 (t.free_list_size index)))

  unfoldable pub allocate : ThreadCache → ℕ → Cmd (Ptr × ThreadCache)
  allocate t requested =
      let size = if requested == 0 then alignment else requested in
      if ltb max_bytes size
      then (do ptr ← allocate_large size; pure (ptr, t))
      else allocate_small t (get_index size)

  unfoldable pub allocate_aligned : ThreadCache → (size align : ℕ) → Cmd (Ptr × ThreadCache)
  allocate_aligned t size align =
      if (align == 0) || not (bit_and align (align - 1) == 0)
      then pure (null, t)
      else if leb align alignment
      then allocate t size
      else if ltb (size_max - (align - 1)) size
      then pure (null, t)
      else allocate t (bit_and (size + align - 1) (size_max - (align - 1)))

  -- The blocks behind `split`, the last one kept, go to the central cache.
  unfoldable pub cut_list : ThreadCache → (index keep : ℕ) → Ptr → Cmd ThreadCache
  cut_list t index keep split = do
    next ← load split
    store split null
    (if next == null
        then skip
        else record_central_flush os (t.free_list_size index - keep)
          >> return_range os next (t.free_list_size index - keep) index)
    pure (set_list t index (t.free_list index) keep)

  unfoldable pub return_to_central : ThreadCache → ℕ → Cmd ThreadCache
  return_to_central t index =
      let batch_num = t.free_list_size index in
      let keep = keep_num batch_num (get_size index) in
      if leb batch_num 1 then pure t else if leb batch_num keep then pure t else do
        split ← walk_list (keep - 1) (t.free_list index)
        if split == null then pure t else cut_list t index keep split

  -- `ptr` becomes the head of its list, and half of a list that is too long is given back.
  unfoldable pub push_block : ThreadCache → (index : ℕ) → Ptr → Cmd ThreadCache
  push_block t index ptr = do
    store ptr (t.free_list index)
    let t' = set_list t index ptr (t.free_list_size index + 1)
    if should_return_to_central t' index then return_to_central t' index else pure t'

  unfoldable pub accept_block : ThreadCache → (index : ℕ) → Ptr → Cmd (Bool × ThreadCache)
  accept_block t index ptr = do t' ← push_block t index ptr; pure (true, t')

  unfoldable pub deallocate : ThreadCache → Ptr → Cmd (Bool × ThreadCache)
  deallocate t ptr = if ptr == null then pure (false, t) else do
    p ← find_span os ptr
    if p == null then pure (false, t) else do
      span ← read_span p
      valid ←
          debug_validate_and_mark_freed p ptr (if span.is_large then size_max else span.size_class)
      if not valid
          then pure (false, t)
          else if span.is_large
          then (do deallocate_span os p; pure (true, t))
          else if leb free_list_size span.size_class
          then pure (false, t)
          else accept_block t span.size_class ptr

  -- Under the guards a large block is validated before it is looked up again.
  unfoldable pub deallocate_large : ThreadCache → Ptr → Cmd (Bool × ThreadCache)
  deallocate_large t ptr = if not os.debug_guards then deallocate t ptr else do
    p ← find_span os ptr
    valid ← debug_validate_and_mark_freed p ptr size_max
    if not valid then pure (false, t) else if p == null then deallocate t ptr else do
      span ← read_span p
      if span.is_large then (do deallocate_span os p; pure (true, t)) else deallocate t ptr

  unfoldable pub deallocate_small : ThreadCache → Ptr → ℕ → Cmd (Bool × ThreadCache)
  deallocate_small t ptr index = if not os.debug_guards then accept_block t index ptr else do
    p ← find_span os ptr
    valid ← debug_validate_and_mark_freed p ptr index
    if valid then accept_block t index ptr else pure (false, t)

  unfoldable pub deallocate_sized : ThreadCache → Ptr → ℕ → Cmd (Bool × ThreadCache)
  deallocate_sized t ptr requested =
      let size = if requested == 0 then alignment else requested in
      let index = get_index (round_up size) in
      if ptr == null
      then pure (false, t)
      else if ltb max_bytes size
      then deallocate_large t ptr
      else if leb free_list_size index
      then deallocate t ptr
      else deallocate_small t ptr index

  -- The loop of `flushAll` with `left` classes to go.
  unfoldable pub flush_from : (left index : ℕ) → ThreadCache → Cmd ThreadCache
  flush_from zero index t = pure t
  flush_from (suc left) index t =
      if not (t.free_list index == null) && ltb 0 (t.free_list_size index)
      then (do
        return_range os (t.free_list index) (t.free_list_size index) index
        flush_from left (index + 1) (set_list t index null 0))
      else flush_from left (index + 1) t

  -- the destructor of a thread's cache
  unfoldable pub flush_all : ThreadCache → Cmd ThreadCache
  flush_all t = flush_from free_list_size 0 t
