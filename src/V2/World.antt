-- ===== src/V2/World.antt =====
-- The process state that the layers of version 2 share, and commands over it.
--
-- `v2/include/PageCache.h` (`Span` and the members of `PageCache`), `v2/include/CentralCache.h`
-- (`SpanTracker` and the members of `CentralCache`) and `v2/include/Platform.h`. The locks are not
-- part of the state: a command is one critical section or a sequence of them.
pub mod Rules
use my_memory_pool.Prelude.Command
pub use my_memory_pool.Prelude.Command.{
  Run, done, fault, out_of_fuel, pure, and_then, ◌>>=◌, ◌>>◌, get, put, skip,
}
use my_memory_pool.Prelude.{
  Ptr, null, update, ℕ, ◌+◌, Option, none, some, List, [], ◌∷◌, ◌==◌, if◌then◌else◌, size_max,
}
use my_memory_pool.Prelude.Assoc.{lookup, insert, erase}

pub record Span : Type 0 where
  pub page_addr : Ptr
  pub num_pages : ℕ
  pub next : Ptr

-- `span_addr` is the first byte of the span that was cut into blocks.
pub record SpanTracker : Type 0 where
  pub span_addr : Ptr
  pub num_pages : ℕ
  pub block_count : ℕ
  pub free_count : ℕ

pub record World : Type 0 where
  -- `*reinterpret_cast<void**>(p)`, the link that a free block holds
  pub word : Ptr → Ptr
  -- the `Span` objects that are alive, and the address of the next one
  pub spans : List (Ptr × Span)
  pub next_span : Ptr
  -- PageCache
  pub free_spans : List (ℕ × Ptr)
  pub span_map : List (Ptr × Ptr)
  pub system_allocs : List (Ptr × ℕ)
  -- CentralCache; a tracker is known by its place in `span_trackers`, which no call shortens
  pub central_free_list : ℕ → Ptr
  pub delay_counts : ℕ → ℕ
  pub last_return_times : ℕ → ℕ
  pub span_trackers : List SpanTracker
  -- the system: calls made of `mmap`, ranges given back by `munmap`, readings taken of the clock,
  -- calls made of `malloc`, and blocks given to `free`
  pub system_calls : ℕ
  pub unmapped : List (Ptr × ℕ)
  pub clock_readings : ℕ
  pub malloc_calls : ℕ
  pub freed : List Ptr

-- What the system answers: to the n-th call of `mmap` for so many bytes, where `size_max` is
-- MAP_FAILED, to the n-th call of `malloc`, the n-th reading of the steady clock in nanoseconds,
-- and the order in which an unordered map is traversed.
pub record Platform : Type 0 where
  pub mmap : ℕ → ℕ → Ptr
  pub malloc : ℕ → ℕ → Ptr
  pub now : ℕ → ℕ
  pub traversal : List (ℕ × ℕ) → List (ℕ × ℕ)

abbrev pub Cmd : Type 0 → Type 0
Cmd A = Command.Cmd World A

-- `*p` for a span pointer, a fault at nullptr and at a deleted span
unfoldable pub read_span : Ptr → Cmd Span
read_span p w = elim (lookup p w.spans) [ none ↦ fault | some s ↦ done s w ]

unfoldable pub write_span : Ptr → Span → Cmd (Unit {0})
write_span p s w = elim (lookup p w.spans) [
  | none ↦ fault
  | some _ ↦ done tt (record w { spans = insert p s w.spans })
]

unfoldable pub new_span : Span → Cmd Ptr
new_span s w =
    done w.next_span
      (record w { spans = insert w.next_span s w.spans; next_span = w.next_span + 1 })

-- `delete p`
unfoldable pub delete_span : Ptr → Cmd (Unit {0})
delete_span p w = elim (lookup p w.spans) [
  | none ↦ fault
  | some _ ↦ done tt (record w { spans = erase p w.spans })
]

-- `*reinterpret_cast<void**>(p)` and the write to it
unfoldable pub load : Ptr → Cmd Ptr
load p w = if p == null then fault else done (w.word p) w

unfoldable pub store : Ptr → Ptr → Cmd (Unit {0})
store p q w = if p == null then fault else done tt (record w { word = update w.word p q })

unfoldable pub alloc_pages : Platform → ℕ → Cmd Ptr
alloc_pages os size w =
    if size == 0
    then done null w
    else (let ptr = os.mmap w.system_calls size in
        done (if ptr == size_max then null else ptr)
          (record w { system_calls = w.system_calls + 1 }))

unfoldable pub free_pages : Ptr → ℕ → Cmd (Unit {0})
free_pages ptr size w =
    if ptr == null then done tt w else done tt (record w { unmapped = (ptr, size) ∷ w.unmapped })

-- `std::chrono::steady_clock::now()`
unfoldable pub clock : Platform → Cmd ℕ
clock os w = done (os.now w.clock_readings) (record w { clock_readings = w.clock_readings + 1 })

-- `std::malloc` and `std::free`
unfoldable pub malloc : Platform → ℕ → Cmd Ptr
malloc os size w =
    done (os.malloc w.malloc_calls size) (record w { malloc_calls = w.malloc_calls + 1 })

unfoldable pub free : Ptr → Cmd (Unit {0})
free ptr w = done tt (record w { freed = ptr ∷ w.freed })

-- the state before any member of the pool is constructed
abbrev pub empty_world : World
empty_world = record {
  word = λ _. 0;
  spans = [];
  next_span = 1;
  free_spans = [];
  span_map = [];
  system_allocs = [];
  central_free_list = λ _. null;
  delay_counts = λ _. 0;
  last_return_times = λ _. 0;
  span_trackers = [];
  system_calls = 0;
  unmapped = [];
  clock_readings = 0;
  malloc_calls = 0;
  freed = [];
}
