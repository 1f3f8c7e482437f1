-- ===== src/V3/PageCache.antt =====
-- `v3/src/PageCache.cpp`. Each public function is one critical section of `mutex_`; the lock of
-- the page map is held for one update of it.
pub mod Pages
pub mod Runs
pub mod Invariant
pub mod Unlink
pub mod Split
pub mod Push
pub mod Reuse
pub mod Lookup
pub mod Promise
pub mod Mapping
pub mod Serve
pub mod Initial
pub mod History
pub mod Kept
pub mod Absorb
pub mod Neighbours
pub mod Deallocate
pub mod Remove
pub mod Walk
pub mod Destroy
pub mod Merge
use my_memory_pool.Prelude.{
  Ptr, null, ℕ, zero, suc, ◌+◌, ◌-◌, ◌*◌, ◌/◌, bit_and, Bool, true, false, not, ◌&&◌, Option, none,
  some, List, [], ◌∷◌, ◌++◌, ltb, ◌==◌, if◌then◌else◌, size_max, length, sub64,
}
use my_memory_pool.Prelude.Assoc.{lookup, insert, erase, lower_bound}
use my_memory_pool.V3.World.{
  Span, default_span, Platform, done, out_of_fuel, Cmd, pure, ◌>>=◌, ◌>>◌, get, put, skip,
  read_span, write_span, new_span, delete_span, page_size, alloc_granularity, alloc_pages,
  free_pages,
}

-- a look-up in a map of pointers, nullptr for a missing key
abbrev pub or_null : Option Ptr → Ptr
or_null none = null
or_null (some p) = p

-- The loops over the pages of a span, with `left` pages to go.
unfoldable pub map_pages : (left id : ℕ) → Ptr → List (ℕ × Ptr) → List (ℕ × Ptr)
map_pages zero id p m = m
map_pages (suc left) id p m = map_pages left (id + 1) p (insert id p m)

unfoldable pub unmap_pages : (left id : ℕ) → List (ℕ × Ptr) → List (ℕ × Ptr)
unmap_pages zero id m = m
unmap_pages (suc left) id m = unmap_pages left (id + 1) (erase id m)

-- the sum over `systemAllocs_`
unfoldable pub total_bytes : List (Ptr × ℕ) → ℕ → ℕ
total_bytes [] total = total
total_bytes ((_, bytes) ∷ rest) total = total_bytes rest (total + bytes)

-- the first entry for `addr` taken out of `systemAllocs_`
unfoldable pub remove_alloc : Ptr → List (Ptr × ℕ) → List (Ptr × ℕ)
remove_alloc addr [] = []
remove_alloc addr ((a, bytes) ∷ rest) =
    if a == addr then rest else (a, bytes) ∷ remove_alloc addr rest

abbrev pub max_cached_bytes : ℕ
max_cached_bytes = 64 * 1024 * 1024

module _ (os : Platform) where
  unfoldable pub page_id : Ptr → ℕ
  page_id ptr = ptr / page_size os

  unfoldable pub register_pages : Ptr → Cmd (Unit {0})
  register_pages p = do
    span ← read_span p
    w ← get
    put (record w {
      page_map = map_pages span.num_pages (span.page_addr / page_size os) p w.page_map;
    })

  unfoldable pub unregister_pages : Ptr → Cmd (Unit {0})
  unregister_pages p = do
    span ← read_span p
    w ← get
    put (record w {
      page_map = unmap_pages span.num_pages (span.page_addr / page_size os) w.page_map;
    })

  unfoldable pub redirect_pages : (from to : Ptr) → Cmd (Unit {0})
  redirect_pages from to = do
    span ← read_span from
    w ← get
    put (record w {
      page_map = map_pages span.num_pages (span.page_addr / page_size os) to w.page_map;
    })

  unfoldable pub find_span_locked : Ptr → Cmd Ptr
  find_span_locked ptr w = done (or_null (lookup (page_id ptr) w.page_map)) w

  unfoldable pub find_span : Ptr → Cmd Ptr
  find_span ptr = if ptr == null then pure null else find_span_locked ptr

  unfoldable pub reserved_bytes : Cmd ℕ
  reserved_bytes w = done (total_bytes w.system_allocs 0) w

  unfoldable pub cached_page_bytes : Cmd ℕ
  cached_page_bytes w = done (w.cached_free_pages * page_size os) w

  -- The request rounded up to the granularity, in bytes: the guards of `systemAlloc` make the sum
  -- fit a word.
  unfoldable pub mapping_bytes : ℕ → ℕ
  mapping_bytes num_pages =
      bit_and (num_pages * page_size os + alloc_granularity os - 1)
        (size_max - (alloc_granularity os - 1))

  unfoldable pub record_mapping : Ptr → ℕ → Cmd (Ptr × ℕ)
  record_mapping ptr bytes = if ptr == null then pure (null, bytes / page_size os) else do
    w ← get
    put (record w { system_allocs = w.system_allocs ++ (ptr, bytes) ∷ [] })
    pure (ptr, bytes / page_size os)

  -- The memory and the page count that `numPages` is set to.
  unfoldable pub system_alloc : ℕ → Cmd (Ptr × ℕ)
  system_alloc num_pages =
      if ltb (size_max / page_size os) num_pages
      then pure (null, num_pages)
      else if ltb (size_max - (alloc_granularity os - 1)) (num_pages * page_size os)
      then pure (null, num_pages)
      else do
        ptr ← alloc_pages os (mapping_bytes num_pages)
        record_mapping ptr (mapping_bytes num_pages)

  unfoldable pub release_origin : Ptr → Cmd (Unit {0})
  release_origin p = do
    unregister_pages p
    span ← read_span p
    w ← get
    put (record w { system_allocs = remove_alloc span.origin_addr w.system_allocs })
    delete_span p
    free_pages span.origin_addr (span.origin_pages * page_size os)

  -- `auto& list = freeSpans_[n]; span->next = list; list = span; cachedFreePages_ += n`
  unfoldable pub push_free_span : Ptr → Cmd (Unit {0})
  push_free_span p = do
    span ← read_span p
    w ← get
    write_span p (record span { next = or_null (lookup span.num_pages w.free_spans) })
    w' ← get
    put (record w' {
      free_spans = insert span.num_pages p w'.free_spans;
      cached_free_pages = w'.cached_free_pages + span.num_pages;
    })

  abbrev pub rest_of : Span → ℕ → Span
  rest_of span num_pages = record default_span {
    page_addr = span.page_addr + num_pages * page_size os;
    num_pages = span.num_pages - num_pages;
    origin_addr = span.origin_addr;
    origin_pages = span.origin_pages;
    in_free_list = true;
  }

  -- A span that is larger than the request keeps its first pages; the rest is a new free span.
  unfoldable pub split_span : Ptr → ℕ → Cmd (Unit {0})
  split_span p num_pages = do
    span ← read_span p
    rest ← new_span (rest_of span num_pages)
    push_free_span rest
    register_pages rest
    write_span p (record span { num_pages = num_pages })
    register_pages p

  -- The branch of `allocateSpan` for a free span `p` under key `k`.
  unfoldable pub reuse_span : (num_pages k : ℕ) → Ptr → Cmd Ptr
  reuse_span num_pages k p = do
    span ← read_span p
    w ← get
    put (record w {
      cached_free_pages = sub64 w.cached_free_pages span.num_pages;
      free_spans =
          if span.next == null then erase k w.free_spans else insert k span.next w.free_spans;
    })
    write_span p (record span { next = null; in_free_list = false })
    (if ltb num_pages span.num_pages then split_span p num_pages else skip)
    pure p

  -- The branch of `allocateSpan` for memory fresh from the system.
  unfoldable pub map_span : ℕ → Cmd Ptr
  map_span num_pages = do
    (memory, pages) ← system_alloc num_pages
    if memory == null then pure null else do
      p ← new_span (record default_span {
        page_addr = memory;
        num_pages = pages;
        origin_addr = memory;
        origin_pages = pages;
      })
      register_pages p
      pure p

  unfoldable pub allocate_span : ℕ → Cmd Ptr
  allocate_span requested w =
      let num_pages = if requested == 0 then 1 else requested in
      elim (lower_bound num_pages w.free_spans) [
        | none ↦ map_span num_pages w
        | some (k, p) ↦ reuse_span num_pages k p w
      ]

  -- Behind the node `prev` the span `p` is taken off its list.
  unfoldable pub unlink_after : (prev p : Ptr) → Span → Cmd Bool
  unlink_after prev p before = do
    span ← read_span p
    w ← get
    put (record w { cached_free_pages = sub64 w.cached_free_pages span.num_pages })
    write_span prev (record before { next = span.next })
    write_span p (record span { next = null; in_free_list = false })
    pure true

  -- The walk of `removeFromFreeList` behind the head; there are at most as many steps as spans.
  unfoldable pub unlink_free_span : (fuel : ℕ) (prev p : Ptr) → Cmd Bool
  unlink_free_span zero prev p = λ _. out_of_fuel
  unlink_free_span (suc fuel) prev p = if prev == null then pure false else do
    before ← read_span prev
    if before.next == null
        then pure false
        else if before.next == p
        then unlink_after prev p before
        else unlink_free_span fuel before.next p

  -- The span `p` heads the list for its size.
  unfoldable pub unlink_head : Ptr → Span → Cmd Bool
  unlink_head p span = do
    w ← get
    put (record w {
      cached_free_pages = sub64 w.cached_free_pages span.num_pages;
      free_spans =
          if span.next == null
          then erase span.num_pages w.free_spans
          else insert span.num_pages span.next w.free_spans;
    })
    write_span p (record span { next = null; in_free_list = false })
    pure true

  unfoldable pub remove_from_free_list : Ptr → Cmd Bool
  remove_from_free_list p = do
    span ← read_span p
    w ← get
    elim (lookup span.num_pages w.free_spans) [
      | none ↦ pure false
      | some list ↦
          if list == p then unlink_head p span else unlink_free_span (length w.spans + 1) list p
    ]

  abbrev pub cleared : Span → Span
  cleared span = record span {
    free_list = null;
    block_size = 0;
    block_count = 0;
    free_count = 0;
    size_class = 0;
    is_large = false;
    next = null;
    debug_alloc_map = [];
    debug_large_allocated = false;
  }

  -- The pages of `q` are taken into `p`.
  unfoldable pub absorb_next : (p q : Ptr) → Cmd (Unit {0})
  absorb_next p q = do
    taken ← read_span q
    span ← read_span p
    write_span p (record span { num_pages = span.num_pages + taken.num_pages })
    redirect_pages q p
    delete_span q

  -- `q` is a free span of the same mapping that begins at `addr`.
  abbrev pub follows : Span → Ptr → Ptr → Ptr → Span → Bool
  follows span p addr q next_span =
      not (q == p)
      && (next_span.in_free_list
          && ((next_span.page_addr == addr) && (next_span.origin_addr == span.origin_addr)))

  unfoldable pub take_next : (p q : Ptr) → Cmd (Unit {0})
  take_next p q = do removed ← remove_from_free_list q; if removed then absorb_next p q else skip

  -- The free neighbour that begins where the span `p` ends is taken into `p`.
  unfoldable pub merge_next : Ptr → Cmd (Unit {0})
  merge_next p = do
    span ← read_span p
    let next_addr = span.page_addr + span.num_pages * page_size os
    q ← find_span_locked next_addr
    if q == null then skip else do
      next_span ← read_span q
      if follows span p next_addr q next_span then take_next p q else skip

  -- The pages of `p` are taken into `q`.
  unfoldable pub absorb_prev : (p q num_pages : ℕ) → Cmd Ptr
  absorb_prev p q num_pages = do
    redirect_pages p q
    prev ← read_span q
    write_span q (record prev { num_pages = prev.num_pages + num_pages })
    delete_span p
    pure q

  -- `q` is a free span of the same mapping that ends where `span` begins.
  abbrev pub precedes : Span → Ptr → Ptr → Span → Bool
  precedes span p q prev =
      not (q == p)
      && (prev.in_free_list
          && ((prev.origin_addr == span.origin_addr)
              && (prev.page_addr + prev.num_pages * page_size os == span.page_addr)))

  unfoldable pub take_prev : (p q num_pages : ℕ) → Cmd Ptr
  take_prev p q num_pages = do
    removed ← remove_from_free_list q
    if removed then absorb_prev p q num_pages else pure p

  -- The span `p` is taken into the free neighbour that ends where `p` begins; the answer is the
  -- span that holds the pages of `p` afterwards.
  unfoldable pub merge_prev : Ptr → Cmd Ptr
  merge_prev p = do
    span ← read_span p
    if span.page_addr == span.origin_addr then pure p else do
      q ← find_span_locked (span.page_addr - 1)
      if q == null then pure p else do
        prev ← read_span q
        if precedes span p q prev then take_prev p q span.num_pages else pure p

  -- The end of `deallocateSpan`: a whole mapping beyond the budget goes back to the system.
  unfoldable pub retire_span : Ptr → Cmd (Unit {0})
  retire_span p = do
    span ← read_span p
    w ← get
    if (span.origin_addr == span.page_addr)
          && ((span.num_pages == span.origin_pages)
              && ltb (max_cached_bytes / page_size os) (w.cached_free_pages + span.num_pages))
        then release_origin p
        else write_span p (record span { in_free_list = true }) >> push_free_span p

  -- Coalescing, and then the free list or the system.
  unfoldable pub coalesce : Ptr → Cmd (Unit {0})
  coalesce p = do merge_next p; q ← merge_prev p; retire_span q

  -- A large span that is its whole mapping.
  abbrev pub returns_direct : Span → Bool
  returns_direct span =
      span.is_large
      && ((span.page_addr == span.origin_addr) && (span.num_pages == span.origin_pages))

  unfoldable pub deallocate_span : Ptr → Cmd (Unit {0})
  deallocate_span p = if p == null then skip else do
    span ← read_span p
    write_span p (cleared span)
    if returns_direct span then release_origin p else coalesce p
