-- ===== src/V2/CentralCache.antt =====
-- `v2/src/CentralCache.cpp`. The lock of a size class makes `fetchRange` and `returnRange` critical
-- sections on its list; the locks are not part of the state. The walks along the links of blocks
-- take `fuel`, a number of steps: a list that is longer is `out_of_fuel`.
pub mod Count
pub mod Lists
pub mod Remove
pub mod Refill
pub mod GiveBack
use my_memory_pool.Prelude.{
  Ptr, null, update, ℕ, zero, suc, ◌+◌, ◌-◌, ◌*◌, ◌/◌, Bool, true, ◌&&◌, ◌||◌, Option, none, some,
  List, [], ◌∷◌, ◌++◌, ltb, leb, ◌==◌, if◌then◌else◌, length, set, add64, dec64,
}
use my_memory_pool.Prelude.Assoc.{lookup, insert}
use my_memory_pool.V2.SizeTable.{free_list_size, get_size}
use my_memory_pool.V2.World.{
  World, SpanTracker, Platform, done, fault, out_of_fuel, Cmd, pure, ◌>>=◌, ◌>>◌, get, put, skip,
  load, store, clock,
}
use my_memory_pool.V2.PageCache.{page_size, allocate_span, deallocate_span}

-- `SPAN_PAGES`, `MAX_DELAY_COUNT`, and `DELAY_INTERVAL` in nanoseconds
abbrev pub min_span_pages : ℕ
min_span_pages = 8

abbrev pub max_delay_count : ℕ
max_delay_count = 48

abbrev pub delay_interval : ℕ
delay_interval = 1000 * 1000000

-- `centralFreeList_[index].store(p)`
abbrev pub set_central : ℕ → Ptr → Cmd (Unit {0})
set_central index p w =
    done tt (record w { central_free_list = update w.central_free_list index p })

-- The constructor: every element of every array, with a reading of the clock for each class.
unfoldable pub start_clocks : Platform → (left index : ℕ) → Cmd (Unit {0})
start_clocks os zero index = skip
start_clocks os (suc left) index = do
  time ← clock os
  w ← get
  put (record w { last_return_times = update w.last_return_times index time })
  start_clocks os left (index + 1)

unfoldable pub central_cache : Platform → Cmd (Unit {0})
central_cache os = do
  w ← get
  put (record w { central_free_list = λ _. null; delay_counts = λ _. 0 })
  start_clocks os free_list_size 0

-- The address is among the pages of the span.
abbrev pub in_span : SpanTracker → Ptr → Bool
in_span tracker addr =
    leb tracker.span_addr addr && ltb addr (tracker.span_addr + tracker.num_pages * page_size)

-- The place of the first tracker whose span holds the address, counted from `i`.
unfoldable pub find_tracker : (i : ℕ) → Ptr → List SpanTracker → Option ℕ
find_tracker i addr [] = none
find_tracker i addr (tracker ∷ rest) =
    let later = find_tracker (i + 1) addr rest in if in_span tracker addr then some i else later

unfoldable pub get_span_tracker : Ptr → Cmd (Option ℕ)
get_span_tracker addr w = done (find_tracker 0 addr w.span_trackers) w

-- `*tracker` for the tracker at a place, a fault where there is none
unfoldable pub tracker_at : List SpanTracker → ℕ → Option SpanTracker
tracker_at [] i = none
tracker_at (tracker ∷ rest) zero = some tracker
tracker_at (tracker ∷ rest) (suc i) = tracker_at rest i

unfoldable pub read_tracker : ℕ → Cmd SpanTracker
read_tracker i w = elim (tracker_at w.span_trackers i) [
  | none ↦ fault
  | some tracker ↦ done tracker w
]

unfoldable pub set_free_count : ℕ → ℕ → Cmd (Unit {0})
set_free_count i free_count = do
  tracker ← read_tracker i
  w ← get
  put (record w {
    span_trackers = set w.span_trackers i (record tracker { free_count = free_count });
  })

-- Pages for a block of `size` bytes: eight, or what a larger block needs.
unfoldable pub span_pages : ℕ → ℕ
span_pages size =
    if leb size (min_span_pages * page_size)
    then min_span_pages
    else (size + page_size - 1) / page_size

unfoldable pub fetch_from_page_cache : Platform → ℕ → Cmd Ptr
unfolding span_pages
fetch_from_page_cache os size = allocate_span os (span_pages size)

-- The loop over the blocks of a new span: `left` more links from the block `i` on.
unfoldable pub link_blocks : (left i : ℕ) → Ptr → ℕ → (Ptr → Ptr) → Ptr → Ptr
link_blocks zero i start size word = word
link_blocks (suc left) i start size word =
    link_blocks left (i + 1) start size (update word (start + i * size) (start + (i + 1) * size))

-- A span at `start` for `n` blocks, more than one: all but the first go on the list of the class.
unfoldable pub carve_span : (index n : ℕ) → Ptr → Cmd (Unit {0})
carve_span index n start = do
  let size = get_size index
  w ← get
  put (record w {
    word = update (link_blocks (n - 1) 0 start size w.word) (start + (n - 1) * size) null;
  })
  next ← load start
  store start null
  set_central index next
  w' ← get
  put (record w' {
    span_trackers =
        w'.span_trackers
        ++ record {
          span_addr = start;
          num_pages = span_pages size;
          block_count = n;
          free_count = n - 1;
        }
          ∷ [];
  })

-- The branch of `fetchRange` for an empty list.
unfoldable pub fetch_new : Platform → (index : ℕ) → Cmd Ptr
fetch_new os index = do
  let n = span_pages (get_size index) * page_size / get_size index
  start ← fetch_from_page_cache os (get_size index)
  if start == null
      then pure null
      else (do (if ltb 1 n then carve_span index n start else skip); pure start)

-- The branch of `fetchRange` for a list that begins with `p`.
unfoldable pub take_block : (index : ℕ) → Ptr → Cmd Ptr
take_block index p = do
  next ← load p
  store p null
  set_central index next
  found ← get_span_tracker p
  elim found [
    | none ↦ skip
    | some i ↦ do tracker ← read_tracker i; set_free_count i (dec64 tracker.free_count)
  ]
  pure p

unfoldable pub fetch_range : Platform → ℕ → Cmd Ptr
fetch_range os index = if leb free_list_size index then pure null else do
  w ← get
  if w.central_free_list index == null
      then fetch_new os index
      else take_block index (w.central_free_list index)

unfoldable pub should_perform_delayed_return : (index current_count current_time : ℕ) → Cmd Bool
should_perform_delayed_return index current_count current_time w =
    done
      (leb max_delay_count current_count
        || leb (w.last_return_times index + delay_interval) current_time)
      w

-- `counts[key]++` on a count that may be missing
abbrev pub one_more : Option ℕ → ℕ
one_more none = 1
one_more (some n) = n + 1

-- The blocks on the list from `current` on, counted for each tracker.
unfoldable pub count_blocks : (fuel : ℕ) → Ptr → List (ℕ × ℕ) → Cmd (List (ℕ × ℕ))
count_blocks zero current counts = λ _. out_of_fuel
count_blocks (suc fuel) current counts = if current == null then pure counts else do
  found ← get_span_tracker current
  next ← load current
  count_blocks fuel next
      (elim found [ none ↦ counts | some i ↦ insert i (one_more (lookup i counts)) counts ])

-- The loop that takes the blocks of a span off a list, with the last block that stays so far; the
-- answer is `newHead`.
unfoldable pub remove_blocks : (fuel : ℕ) → SpanTracker → (new_head prev current : Ptr) → Cmd Ptr
remove_blocks zero tracker new_head prev current = λ _. out_of_fuel
remove_blocks (suc fuel) tracker new_head prev current =
    if current == null then pure new_head else do
      next ← load current
      if in_span tracker current
          then (if prev == null
              then remove_blocks fuel tracker next prev next
              else store prev next >> remove_blocks fuel tracker new_head prev next)
          else remove_blocks fuel tracker new_head current next

unfoldable pub update_span_free_count : (fuel i new_free_blocks index : ℕ) → Cmd (Unit {0})
update_span_free_count fuel i new_free_blocks index = do
  tracker ← read_tracker i
  let free_count = add64 tracker.free_count new_free_blocks
  set_free_count i free_count
  if free_count == tracker.block_count
      then (do
        w ← get
        new_head ← remove_blocks fuel tracker null null (w.central_free_list index)
        set_central index new_head
        deallocate_span tracker.span_addr tracker.num_pages)
      else skip

unfoldable pub update_spans : (fuel index : ℕ) → List (ℕ × ℕ) → Cmd (Unit {0})
update_spans fuel index [] = skip
update_spans fuel index ((i, n) ∷ rest) = do
  update_span_free_count fuel i n index
  update_spans fuel index rest

unfoldable pub perform_delayed_return : Platform → (fuel index : ℕ) → Cmd (Unit {0})
perform_delayed_return os fuel index = do
  w ← get
  put (record w { delay_counts = update w.delay_counts index 0 })
  time ← clock os
  w' ← get
  put (record w' { last_return_times = update w'.last_return_times index time })
  counts ← count_blocks fuel (w'.central_free_list index) []
  update_spans fuel index (os.traversal counts)

-- The walk of `returnRange` to the end of the list, over at most `left` links.
unfoldable pub last_block : (left : ℕ) → Ptr → Cmd Ptr
last_block zero p = do next ← load p; pure p
last_block (suc left) p = do next ← load p; if next == null then pure p else last_block left next

-- The list is counted in the delay of its class, and spans go back once that is up.
unfoldable pub count_return : Platform → (fuel index : ℕ) → Cmd (Unit {0})
count_return os fuel index = do
  w ← get
  let count = add64 (w.delay_counts index) 1
  put (record w { delay_counts = update w.delay_counts index count })
  time ← clock os
  due ← should_perform_delayed_return index count time
  if due then perform_delayed_return os fuel index else skip

unfoldable pub return_range : Platform → (fuel : ℕ) (start : Ptr) (size index : ℕ) → Cmd (Unit {0})
return_range os fuel start size index =
    if (start == null) || leb free_list_size index then skip else do
      last ← last_block (size / get_size index - 1) start
      w ← get
      store last (w.central_free_list index)
      set_central index start
      count_return os fuel index
