-- ===== src/V3/ThreadCache/Client.antt =====
-- A thread that is served the blocks of one size class from one span, and any client of it.
use my_memory_pool.Prelude.{
  Ptr, update, ℕ, ◌+◌, ◌≤◌, ◌<◌, ◌≡◌, ◌≢◌, Bool, true, some, List, [], ◌∷◌, length,
}
use my_memory_pool.Prelude.Assoc.{lookup}
use my_memory_pool.Prelude.Blocks.{has}
use my_memory_pool.Prelude.Blocks.Held.{without, OnGrid}
use my_memory_pool.V3.SizeClass.{max_bytes, get_size, get_index}
use my_memory_pool.V3.World.{World, Span, Platform, done}
use my_memory_pool.V3.ThreadCache.{ThreadCache, get_batch_num, allocate, deallocate_sized}
use my_memory_pool.V3.ThreadCache.Shelf.{OnShelf}

-- The sizes from 1 to MAX_BYTES of the class.
pub record OfClass (index size : ℕ) : Type 0 where
  pub some_byte : 0 < size
  pub small : size ≤ max_bytes
  pub chosen : get_index size ≡ index

-- The span has a whole batch if the thread has no block.
abbrev pub Ample : (index p : ℕ) → ThreadCache → World → Type 0
Ample index p t w =
    t.free_list_size index ≡ 0
    → (s : Span) × ((lookup p w.spans ≡ some s) × (get_batch_num (get_size index) ≤ s.free_count))

-- The blocks that the client holds, after calls that ended and writes of the client to what it holds.
-- It begins with all `n` blocks of the span free, at equal distances from `base`, and gives back a
-- block that it holds while it holds another one.
pub data Client (os : Platform) (index p n : ℕ) (pages : List (ℕ × Ptr)) (base : Ptr)
    : List Ptr → ThreadCache → World → Type 0 where
  begins :
      {t : ThreadCache} {w : World} (free : List Ptr)
      → OnShelf os index p n pages free t w
      → length free ≡ n
      → ((a : Ptr) → has a free ≡ true → OnGrid base (get_size index) a)
      → Client os index p n pages base [] t w
  takes :
      {held : List Ptr} {t t' : ThreadCache} {w w' : World} {q : Ptr} (size : ℕ)
      → Client os index p n pages base held t w
      → OfClass index size
      → Ample index p t w
      → length held < n
      → allocate os t size w ≡ done (q, t') w'
      → Client os index p n pages base (q ∷ held) t' w'
  gives :
      {held : List Ptr} {t t' : ThreadCache} {w w' : World} {freed : Bool} (q other size : ℕ)
      → Client os index p n pages base held t w
      → has q held ≡ true
      → has other held ≡ true
      → other ≢ q
      → OfClass index size
      → deallocate_sized os t q size w ≡ done (freed, t') w'
      → Client os index p n pages base (without q held) t' w'
  writes :
      {held : List Ptr} {t : ThreadCache} {w : World} (slot at word : Ptr)
      → Client os index p n pages base held t w
      → has slot held ≡ true
      → slot ≤ at
      → at < slot + get_size index
      → Client os index p n pages base held t (record w { word = update w.word at word })
