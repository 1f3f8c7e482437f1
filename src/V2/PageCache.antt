-- ===== src/V2/PageCache.antt =====
-- `v2/src/PageCache.cpp`. Each public function is one critical section of `mutex_`.
pub mod Fresh
pub mod Alone
pub mod Recycle
pub mod Destroy
use my_memory_pool.Prelude.{
  Ptr, null, ℕ, zero, suc, ◌+◌, ◌-◌, ◌*◌, ◌%◌, ◌^◌, Bool, true, false, ◌&&◌, Option, none, some,
  List, [], ◌∷◌, ◌++◌, ltb, ◌==◌, if◌then◌else◌, length, add64, word_mod,
}
use my_memory_pool.Prelude.Assoc.{lookup, insert, erase, lower_bound}
use my_memory_pool.V2.World.{
  Span, Platform, done, out_of_fuel, Cmd, pure, ◌>>=◌, ◌>>◌, get, put, skip, read_span, write_span,
  new_span, delete_span, alloc_pages, free_pages,
}

abbrev pub page_size : ℕ
page_size = 4096

-- a look-up in a map of pointers, nullptr for a missing key
abbrev pub or_null : Option Ptr → Ptr
or_null none = null
or_null (some p) = p

unfoldable pub system_alloc : Platform → ℕ → Cmd Ptr
system_alloc os num_pages = do
  let size = num_pages * page_size % word_mod
  ptr ← alloc_pages os size
  if ptr == null then pure null else do
    w ← get
    put (record w { system_allocs = w.system_allocs ++ (ptr, size) ∷ [] })
    pure ptr

-- `auto& list = freeSpans_[n]; span->next = list; list = span`
unfoldable pub push_free_span : Ptr → Cmd (Unit {0})
push_free_span p = do
  span ← read_span p
  w ← get
  write_span p (record span { next = or_null (lookup span.num_pages w.free_spans) })
  w' ← get
  put (record w' { free_spans = insert span.num_pages p w'.free_spans })

-- `spanMap_[addr] = span`
unfoldable pub map_span_at : (addr p : Ptr) → Cmd (Unit {0})
map_span_at addr p = do w ← get; put (record w { span_map = insert addr p w.span_map })

-- A span that is larger than the request keeps its first pages; the rest is a new free span.
unfoldable pub split_span : Ptr → Span → ℕ → Cmd (Unit {0})
split_span p span num_pages = do
  let rest_addr = span.page_addr + num_pages * page_size
  rest ←
      new_span
        (record { page_addr = rest_addr; num_pages = span.num_pages - num_pages; next = null })
  push_free_span rest
  map_span_at rest_addr rest
  write_span p (record { page_addr = span.page_addr; num_pages = num_pages; next = null })

-- The branch of `allocateSpan` for a free span `p` under key `k`.
unfoldable pub reuse_span : (num_pages k : ℕ) → Ptr → Cmd Ptr
reuse_span num_pages k p = do
  span ← read_span p
  w ← get
  put (record w {
    free_spans =
        if span.next == null then erase k w.free_spans else insert k span.next w.free_spans;
  })
  write_span p (record span { next = null })
  (if ltb num_pages span.num_pages then split_span p span num_pages else skip)
  map_span_at span.page_addr p
  pure span.page_addr

-- The branch of `allocateSpan` for memory fresh from the system.
unfoldable pub fresh_span : Platform → ℕ → Cmd Ptr
fresh_span os num_pages = do
  memory ← system_alloc os num_pages
  if memory == null then pure null else do
    p ← new_span (record { page_addr = memory; num_pages = num_pages; next = null })
    map_span_at memory p
    pure memory

-- The answer is the address of the pages, not of the span.
unfoldable pub allocate_span : Platform → ℕ → Cmd Ptr
allocate_span os num_pages w = elim (lower_bound num_pages w.free_spans) [
  | none ↦ fresh_span os num_pages w
  | some (k, p) ↦ reuse_span num_pages k p w
]

-- The walk of `removeFromFreeList` behind the head; there are at most as many steps as spans.
unfoldable pub unlink_free_span : (fuel : ℕ) (prev p : Ptr) → Cmd Bool
unlink_free_span zero prev p = λ _. out_of_fuel
unlink_free_span (suc fuel) prev p = if prev == null then pure false else do
  before ← read_span prev
  if before.next == null
      then pure false
      else if before.next == p
      then (do
        span ← read_span p
        write_span prev (record before { next = span.next })
        write_span p (record span { next = null })
        pure true)
      else unlink_free_span fuel before.next p

-- The span `p` heads the list for its size.
unfoldable pub unlink_head : Ptr → Span → Cmd Bool
unlink_head p span = do
  w ← get
  put (record w {
    free_spans =
        if span.next == null
        then erase span.num_pages w.free_spans
        else insert span.num_pages span.next w.free_spans;
  })
  write_span p (record span { next = null })
  pure true

unfoldable pub remove_from_free_list : Ptr → Cmd Bool
remove_from_free_list p = do
  span ← read_span p
  w ← get
  elim (lookup span.num_pages w.free_spans) [
    | none ↦ pure false
    | some list ↦
        if list == p then unlink_head p span else unlink_free_span (length w.spans + 1) list p
  ]

-- The free span whose entry is at the end of the pages `[ptr, ptr + numPages)` is taken into `p`.
unfoldable pub merge_next : (ptr p : Ptr) (num_pages : ℕ) → Cmd (Unit {0})
merge_next ptr p num_pages = do
  let next_addr = ptr + num_pages * page_size
  w ← get
  elim (lookup next_addr w.span_map) [
    | none ↦ skip
    | some q ↦ do
      removed ← remove_from_free_list q
      if removed
          then (do
            next_span ← read_span q
            span ← read_span p
            write_span p (record span { num_pages = add64 span.num_pages next_span.num_pages })
            w' ← get
            put (record w' { span_map = erase next_addr w'.span_map })
            delete_span q)
          else skip
  ]

-- The entry before the one for `addr` in address order, `last` so far; where the map has no entry
-- for `addr`, the last one, which precedes `end()`.
unfoldable pub entry_before : Ptr → Option Ptr → List (Ptr × Ptr) → Option Ptr
entry_before addr last [] = last
entry_before addr last ((a, p) ∷ m) = if a == addr then last else entry_before addr (some p) m

-- The span `p` at `addr` is taken into the free span of the entry before, if that one ends there;
-- the answer is the span that holds the pages of `p` afterwards.
unfoldable pub merge_prev : Ptr → Cmd Ptr
merge_prev p = do
  span ← read_span p
  w ← get
  elim (entry_before span.page_addr none w.span_map) [
    | none ↦ pure p
    | some q ↦ do
      prev ← read_span q
      if prev.page_addr + prev.num_pages * page_size == span.page_addr
          then (do
            removed ← remove_from_free_list q
            if removed
                then (do
                  before ← read_span q
                  write_span q (record before { num_pages = add64 before.num_pages span.num_pages })
                  w' ← get
                  put (record w' { span_map = erase span.page_addr w'.span_map })
                  delete_span p
                  pure q)
                else pure p)
          else pure p
  ]

unfoldable pub deallocate_span : Ptr → ℕ → Cmd (Unit {0})
deallocate_span ptr num_pages = do
  w ← get
  elim (lookup ptr w.span_map) [
    | none ↦ skip
    | some p ↦ do
      span ← read_span p
      write_span p (record span { num_pages = num_pages })
      merge_next ptr p num_pages
      q ← merge_prev p
      push_free_span q
  ]

-- The loops of the destructor.
unfoldable pub delete_spans : List (Ptr × Ptr) → Cmd (Unit {0})
delete_spans [] = skip
delete_spans ((_, p) ∷ rest) = do delete_span p; delete_spans rest

unfoldable pub release_mappings : List (Ptr × ℕ) → Cmd (Unit {0})
release_mappings [] = skip
release_mappings ((ptr, bytes) ∷ rest) = do free_pages ptr bytes; release_mappings rest

unfoldable pub destroy : Cmd (Unit {0})
destroy = do
  w ← get
  delete_spans w.span_map
  w' ← get
  put (record w' { span_map = []; free_spans = [] })
  release_mappings w.system_allocs
