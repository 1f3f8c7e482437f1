-- ===== src/V3/CentralCache.antt =====
-- `v3/src/CentralCache.cpp`. The spin lock of a shard makes each public function one critical
-- section on the spans of its size class; the lock itself is not part of the state.
pub mod Carve
pub mod Create
pub mod Source
pub mod Owner
pub mod Batch
pub mod Whole
use my_memory_pool.Prelude.{
  Ptr, null, update, ℕ, zero, suc, ◌+◌, ◌-◌, ◌*◌, ◌/◌, max, false, not, ◌||◌, ltb, leb, ◌==◌,
  if◌then◌else◌, length, replicate, dec64,
}
use my_memory_pool.V3.SizeClass.{free_list_size, get_size}
use my_memory_pool.V3.World.{
  Span, Platform, done, out_of_fuel, Cmd, pure, ◌>>=◌, ◌>>◌, get, put, skip, read_span, write_span,
  load, store, page_size,
}
use my_memory_pool.V3.PageCache.{find_span, allocate_span, deallocate_span}

-- `shards_[index].partial = p`
unfoldable pub set_partial : ℕ → Ptr → Cmd (Unit {0})
set_partial index p w = done tt (record w { partial = update w.partial index p })

-- The links of a new span, from block `i` on: `left` more blocks follow, and the last one ends
-- the list.
unfoldable pub link_blocks : (left i : ℕ) → Ptr → ℕ → (Ptr → Ptr) → Ptr → Ptr
link_blocks zero i start block_size word = update word (start + i * block_size) null
link_blocks (suc left) i start block_size word =
    link_blocks left (i + 1) start block_size
      (update word (start + i * block_size) (start + (i + 1) * block_size))

-- Bytes of a span for a class, before rounding to pages.
abbrev pub tier_bytes : ℕ → ℕ
tier_bytes block_size =
    if leb block_size 256
    then 32 * 1024
    else if leb block_size 1024
    then 128 * 1024
    else if leb block_size 4096
    then 512 * 1024
    else 2 * 1024 * 1024

module _ (os : Platform) where
  unfoldable pub target_bytes : ℕ → ℕ
  target_bytes block_size =
      let target = max (page_size os) (tier_bytes block_size) in
      if ltb target block_size
      then (block_size + page_size os - 1) / page_size os * page_size os
      else target

  unfoldable pub span_pages : ℕ → ℕ
  unfolding target_bytes
  span_pages block_size =
      let pages = target_bytes block_size / page_size os in if pages == 0 then 1 else pages

  -- The block list of the span `p`, which has room for `n` blocks, and its header.
  unfoldable pub carve_span : Ptr → (index n : ℕ) → Cmd Ptr
  carve_span p index n = do
    span ← read_span p
    w ← get
    put (record w { word = link_blocks (n - 1) 0 span.page_addr (get_size index) w.word })
    write_span p (record span {
      block_size = get_size index;
      block_count = n;
      free_count = n;
      free_list = span.page_addr;
      size_class = index;
      is_large = false;
      next = null;
      debug_alloc_map = if os.debug_guards then replicate n 0 else span.debug_alloc_map;
      debug_large_allocated = false;
    })
    pure p

  unfoldable pub create_span : ℕ → Cmd Ptr
  create_span index = do
    p ← allocate_span os (span_pages (get_size index))
    if p == null then pure null else do
      span ← read_span p
      let n = span.num_pages * page_size os / get_size index
      if n == 0 then deallocate_span os p >> pure null else carve_span p index n

  -- The walk of `unlinkPartial` behind the head; there are at most as many steps as spans.
  unfoldable pub unlink_partial_after : (fuel : ℕ) (prev p : Ptr) → Cmd (Unit {0})
  unlink_partial_after zero prev p = λ _. out_of_fuel
  unlink_partial_after (suc fuel) prev p = do
    before ← read_span prev
    if before.next == null
        then skip
        else if before.next == p
        then (do
          span ← read_span p
          write_span prev (record before { next = span.next })
          write_span p (record span { next = null }))
        else unlink_partial_after fuel before.next p

  unfoldable pub unlink_partial : ℕ → Ptr → Cmd (Unit {0})
  unlink_partial index p = do
    w ← get
    if w.partial index == null
        then skip
        else if w.partial index == p
        then (do
          span ← read_span p
          set_partial index span.next
          write_span p (record span { next = null }))
        else unlink_partial_after (length w.spans + 1) (w.partial index) p

  -- The first span with a free block, or a new one; nullptr if the system has no memory.
  unfoldable pub available_span : ℕ → Cmd Ptr
  available_span index = do
    w ← get
    if not (w.partial index == null)
        then pure (w.partial index)
        else do p ← create_span index; (if p == null then skip else set_partial index p); pure p

  -- The first free block of the span `p`, with its link cleared.
  unfoldable pub take_block : Ptr → Cmd Ptr
  take_block p = do
    span ← read_span p
    rest ← load span.free_list
    write_span p (record span { free_list = rest; free_count = dec64 span.free_count })
    store span.free_list null
    pure span.free_list

  -- A span with no free block leaves the list of its shard.
  unfoldable pub drop_exhausted : ℕ → Ptr → Cmd (Unit {0})
  drop_exhausted index p = do
    span ← read_span p
    if span.free_count == 0
        then set_partial index span.next >> write_span p (record span { next = null })
        else skip

  -- The loop of `fetchRange` with `left` = batchNum - got blocks to go.
  unfoldable pub fetch_loop : (left index : ℕ) (head tail : Ptr) (got : ℕ) → Cmd (Ptr × ℕ)
  fetch_loop zero index head tail got = pure (head, got)
  fetch_loop (suc left) index head tail got = do
    p ← available_span index
    if p == null then pure (head, got) else do
      obj ← take_block p
      (if head == null then skip else store tail obj)
      drop_exhausted index p
      fetch_loop left index (if head == null then obj else head) obj (got + 1)

  -- The list of blocks and `fetchedCount`.
  unfoldable pub fetch_range : (index batch_num : ℕ) → Cmd (Ptr × ℕ)
  fetch_range index batch_num =
      if leb free_list_size index || batch_num == 0
      then pure (null, 0)
      else fetch_loop batch_num index null null 0

  -- The block `cur` goes back to the span `p`, which goes back to the page cache once it is whole.
  unfoldable pub put_block : ℕ → (cur p : Ptr) → Span → Cmd (Unit {0})
  put_block index cur p span = do
    store cur span.free_list
    write_span p (record span { free_list = cur; free_count = span.free_count + 1 })
    if span.free_count + 1 == span.block_count
        then unlink_partial index p >> deallocate_span os p
        else if span.free_count == 0
        then (do
          w ← get
          write_span p (record span {
            free_list = cur;
            free_count = span.free_count + 1;
            next = w.partial index;
          })
          set_partial index p)
        else skip

  -- A block of no span, or of a span of another class, is passed over.
  unfoldable pub return_block : ℕ → Ptr → Cmd (Unit {0})
  return_block index cur = do
    p ← find_span os cur
    if p == null then skip else do
      span ← read_span p
      if span.size_class == index then put_block index cur p span else skip

  -- The loop of `returnRange`: the link of a block is read before the block is given back.
  unfoldable pub return_loop : (fuel index : ℕ) → Ptr → Cmd (Unit {0})
  return_loop zero index cur = λ _. out_of_fuel
  return_loop (suc fuel) index cur =
      if cur == null
      then skip
      else do next ← load cur; return_block index cur; return_loop fuel index next

  -- The code ignores `blockCount`; here it bounds the rounds, and a longer list is `out_of_fuel`.
  unfoldable pub return_range : Ptr → (block_count index : ℕ) → Cmd (Unit {0})
  return_range start block_count index =
      if (start == null) || leb free_list_size index
      then skip
      else return_loop (block_count + 1) index start
