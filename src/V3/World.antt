-- ===== src/V3/World.antt =====
-- The process state that the layers of version 3 share, and commands over it.
--
-- `v3/src/PageCache.h` (`Span` and the members of `PageCache`), `v3/src/CentralCache.h` (the heads
-- of the shards), the counters of `v3/src/MemoryPool.cpp` and the system calls of
-- `v3/src/Platform.h`. A command is one critical section or a sequence of them.
pub mod Rules
use my_memory_pool.Prelude.Command
pub use my_memory_pool.Prelude.Command.{
  Run, done, fault, out_of_fuel, pure, and_then, ◌>>=◌, ◌>>◌, get, put, skip,
}
use my_memory_pool.Prelude.{
  Ptr, null, update, ℕ, suc, ◌+◌, ◌-◌, ◌*◌, ◌/◌, Bool, true, false, Option, none, some, List, [],
  ◌∷◌, ◌++◌, ◌==◌, if◌then◌else◌, size_max,
}
use my_memory_pool.Prelude.Assoc.{lookup, insert, erase}

pub record Span : Type 0 where
  pub page_addr : Ptr
  pub num_pages : ℕ
  pub origin_addr : Ptr
  pub origin_pages : ℕ
  pub block_size : ℕ
  pub block_count : ℕ
  pub free_count : ℕ
  pub size_class : ℕ
  pub free_list : Ptr
  pub next : Ptr
  pub in_free_list : Bool
  pub is_large : Bool
  pub debug_alloc_map : List ℕ
  pub debug_large_allocated : Bool

-- `new Span`: the initialisers of the struct.
abbrev pub default_span : Span
default_span = record {
  page_addr = null;
  num_pages = 0;
  origin_addr = null;
  origin_pages = 0;
  block_size = 0;
  block_count = 0;
  free_count = 0;
  size_class = 0;
  free_list = null;
  next = null;
  in_free_list = false;
  is_large = false;
  debug_alloc_map = [];
  debug_large_allocated = false;
}

pub record Counters : Type 0 where
  pub alloc_count : ℕ
  pub free_count : ℕ
  pub small_alloc_count : ℕ
  pub large_alloc_count : ℕ
  pub sized_free_count : ℕ
  pub unsized_free_count : ℕ
  pub central_refill_count : ℕ
  pub central_flush_count : ℕ

pub record World : Type 0 where
  -- `*reinterpret_cast<void**>(p)`, the link that a free block holds
  pub word : Ptr → Ptr
  -- the `Span` objects that are alive, and the address of the next one
  pub spans : List (Ptr × Span)
  pub next_span : Ptr
  -- PageCache
  pub free_spans : List (ℕ × Ptr)
  pub page_map : List (ℕ × Ptr)
  pub system_allocs : List (Ptr × ℕ)
  pub cached_free_pages : ℕ
  -- CentralCache: `shards_[index].partial`
  pub partial : ℕ → Ptr
  pub counters : Counters
  -- the system: calls made of `mmap`, and the ranges given back by `munmap`
  pub system_calls : ℕ
  pub unmapped : List (Ptr × ℕ)

-- What the program is compiled for and what the system answers. `page` and `granularity` are 0
-- where the system reports none; `mmap n bytes` is the answer to the n-th call, and `size_max` is
-- MAP_FAILED.
pub record Platform : Type 0 where
  pub page : ℕ
  pub granularity : ℕ
  pub mmap : ℕ → ℕ → Ptr
  pub debug_guards : Bool
  pub stats_enabled : Bool

abbrev pub Cmd : Type 0 → Type 0
Cmd A = Command.Cmd World A

-- `*p` for a span pointer, a fault at nullptr and at a deleted span
unfoldable pub read_span : Ptr → Cmd Span
read_span p w = elim (lookup p w.spans) [ none ↦ fault | some s ↦ done s w ]

unfoldable pub write_span : Ptr → Span → Cmd (Unit {0})
write_span p s w = elim (lookup p w.spans) [
  | none ↦ fault
  | some _ ↦ done tt (record w { spans = insert p s w.spans })
]

unfoldable pub new_span : Span → Cmd Ptr
new_span s w =
    done w.next_span
      (record w { spans = insert w.next_span s w.spans; next_span = w.next_span + 1 })

-- `delete p`
unfoldable pub delete_span : Ptr → Cmd (Unit {0})
delete_span p w = elim (lookup p w.spans) [
  | none ↦ fault
  | some _ ↦ done tt (record w { spans = erase p w.spans })
]

-- `*reinterpret_cast<void**>(p)` and the write to it
unfoldable pub load : Ptr → Cmd Ptr
load p w = if p == null then fault else done (w.word p) w

unfoldable pub store : Ptr → Ptr → Cmd (Unit {0})
store p q w = if p == null then fault else done tt (record w { word = update w.word p q })

unfoldable pub page_size : Platform → ℕ
page_size os = if os.page == 0 then 4096 else os.page

unfoldable pub alloc_granularity : Platform → ℕ
unfolding page_size
alloc_granularity os = if os.granularity == 0 then page_size os else os.granularity

unfoldable pub alloc_pages : Platform → ℕ → Cmd Ptr
alloc_pages os size w =
    if size == 0
    then done null w
    else (let ptr = os.mmap w.system_calls size in
        done (if ptr == size_max then null else ptr)
          (record w { system_calls = w.system_calls + 1 }))

unfoldable pub free_pages : Ptr → ℕ → Cmd (Unit {0})
free_pages ptr size w =
    if ptr == null then done tt w else done tt (record w { unmapped = (ptr, size) ∷ w.unmapped })

-- the state at the start of the program
abbrev pub empty_world : World
empty_world = record {
  word = λ _. 0;
  spans = [];
  next_span = 1;
  free_spans = [];
  page_map = [];
  system_allocs = [];
  cached_free_pages = 0;
  partial = λ _. null;
  counters = record {
    alloc_count = 0;
    free_count = 0;
    small_alloc_count = 0;
    large_alloc_count = 0;
    sized_free_count = 0;
    unsized_free_count = 0;
    central_refill_count = 0;
    central_flush_count = 0;
  };
  system_calls = 0;
  unmapped = [];
}
