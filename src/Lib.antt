-- ===== src/Lib.antt =====
-- A model of my-MemoryPool and what it guarantees.
--
-- The repository holds three versions of a memory pool, all modelled here.
-- Version 1 (v1/) keeps 64 pools of one slot size each; every pool cuts blocks of 4096 bytes into
-- slots and keeps the freed slots on a lock-free list. Version 3 (v3/) has three layers: a cache
-- per thread with one list of blocks per size class (v3/src/ThreadCache.cpp), a central cache
-- that cuts spans of pages into blocks and takes them back in batches (v3/src/CentralCache.cpp),
-- and a page cache that gets memory from the system, splits and merges spans, and knows the span
-- of every page (v3/src/PageCache.cpp). v3/src/MemoryPool.cpp, v3/include/kama/Allocator.h and
-- v3/src/kama_c_api.cpp are the API. Version 2 (v2/) has the same three layers in an earlier form:
-- the central cache keeps one list of blocks for each class, tracks the spans that the blocks came
-- from, and gives spans back to the page cache after a delay.
--
-- Prelude: tests on numbers, lists, maps as sorted lists of entries, words and bit masks, lists of
--   blocks in memory, checks of all cases below a bound, and commands over a state.
-- V3/SizeClass: v3/src/Common.h, the table of classes and the maps from sizes to classes. They are
--   built by the loops of the source; Fit, Laws and Alignment say what comes out.
-- V3/World: the state that the layers share: `Span` objects, block memory, page map, free lists,
--   shards, counters, and the answers of the system (v3/src/Platform.h). A command `Cmd A` runs on
--   that state and is done, or at fault where the code would use a null or dangling pointer.
-- V3/PageCache: v3/src/PageCache.cpp, function by function; Invariant says what holds between two
--   calls; Runs, Unlink, Push, Split, Reuse, Promise, Mapping and Serve are about `allocateSpan`;
--   Walk, Remove, Merge, Absorb, Neighbours and Deallocate about `deallocateSpan`; Kept, Initial
--   and History about sequences of calls; Pages and Lookup about the page map; Destroy has the
--   destructor.
-- V3/CentralCache: v3/src/CentralCache.cpp; Carve and Create are about `createSpan`, Source and
--   Batch about `fetchRange`, Owner and Whole about `returnRange`.
-- V3/ThreadCache: v3/src/ThreadCache.cpp; a thread's lists are passed along beside the world.
--   Limits, Aligned, Reuse, Large and Refusal are about batches, aligned requests, the fast path,
--   large blocks and foreign pointers; Shelf, Take, Flush and Release about the free blocks of a
--   class between a thread and one span, Client, Balance and Exclusive about any sequence of such
--   calls, Begin about the first one.
-- V3/Counters and V3/MemoryPool: the counters and the API.
-- V1/Pool, V1/HashBucket, V1/FreeList: v1/include/MemoryPool.h and v1/src/MemoryPool.cpp. Pool is
--   for one thread; FreeList has one step for each access to shared memory, of any thread.
--   Geometry and Slots say where slots lie, Chain is about the blocks, Recycle about the free list,
--   Lifetime, Ownership, Exclusive and Destroy about a pool from its first use to its destructor.
-- V3/SpinLock: the lock of v3/src/Common.h and v2/include/Common.h, one step for each access to the
--   flag.
-- V2/SizeTable and V2/SizeClass: v2/include/Common.h, the table, and `getIndex` and `roundUp`.
-- V2/World: `Span` objects, block memory, the maps of the page cache, the lists and trackers of the
--   central cache, and the answers of the system (v2/include/Platform.h).
-- V2/PageCache, V2/CentralCache, V2/ThreadCache: v2/src/PageCache.cpp, v2/src/CentralCache.cpp and
--   v2/src/ThreadCache.cpp, function by function. Fresh, Alone, Recycle and Destroy are about
--   mappings, spans that come back, and the destructor; Lists, Refill, Count, Remove and GiveBack about the
--   list of a class; Cut, Stack, Refill and Stale about a thread's lists. V2/MemoryPool is the API.
--
-- Function names are those of the source in snake case: `allocateSpan` is `allocate_span`. A branch
-- or a loop body of a long function has a name of its own, with a comment.
--
-- Numbers. Sizes, counts and addresses are natural numbers. Where the code relies on 64 bits the
-- bound is written out: the guards against overflow compare with `size_max`, masks and the
-- subtractions of counters wrap at 2^64. Sums that the code does not guard are not wrapped. The block
-- and slot sizes of version 1, of type int, are not bounded either.
--
-- Locks and threads. In versions 2 and 3 a function that holds a lock is one critical section;
-- other threads act between commands, never inside one. The spin lock has a model of its own. The
-- free list of version 1 is modelled with sequentially consistent accesses, and its tag does not wrap.
--
-- Loops recurse on the number of rounds left. The walks along `next` pointers take fuel: one step
-- for each span that exists, and one step for each block that the caller says is on its list;
-- running out is an outcome of its own, which differs from being done. In version 2 the walks along
-- the links of blocks take their fuel as a parameter, which has to exceed the length of the list.
--
-- The system is a parameter: the page size, the granularity and the answers of mmap are fields of
-- `Platform`; in version 2 also the clock, malloc and the order in which an unordered map is
-- traversed. `operator new` is an argument of the pools of version 1, and so is the outcome of a
-- constructor. The build options for debug guards and statistics are fields of `Platform`.
--
-- Not modelled: exceptions of the allocations that the program makes for its own objects, what the
-- constructors and destructors of user types do, tests, benchmarks and build files.
pub mod Prelude
pub mod V1
pub mod V2
pub mod V3
