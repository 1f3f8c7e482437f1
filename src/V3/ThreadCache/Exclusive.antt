-- ===== src/V3/ThreadCache/Exclusive.antt =====
-- A block that a thread hands out has one owner until it is freed.
use my_memory_pool.Prelude.{
  Ptr, ℕ, ◌+◌, ◌≤◌, ◌<◌, ◌≡◌, ◌≢◌, ◌⊎◌, true, false, arith, List, ==_refl, length,
}
use my_memory_pool.Prelude.Blocks.{has}
use my_memory_pool.Prelude.Blocks.Held.{Distinct, OnGrid, OnGrid-apart}
use my_memory_pool.Prelude.Command.{Returns, Returns-done, weaken}
use my_memory_pool.V3.SizeClass.{get_size}
use my_memory_pool.V3.World.{World, Platform}
use my_memory_pool.V3.ThreadCache.{ThreadCache, allocate, deallocate_sized}
use my_memory_pool.V3.ThreadCache.Client.{OfClass, Ample, Client, begins, takes, gives, writes}
use my_memory_pool.V3.ThreadCache.Balance.{
  Balance, allocate-Balance, deallocate_sized-Balance, write-Balance,
}

-- What a client may rely on: the blocks that it holds lie apart, and so does the next one that it
-- gets; a block that it frees is accepted.
pub record Exclusive (os : Platform) (index p n : ℕ) (base : Ptr) (held : List Ptr)
    (t : ThreadCache) (w : World) : Type 0 where
  pub distinct : Distinct held
  pub placed : (a : Ptr) → has a held ≡ true → OnGrid base (get_size index) a
  pub disjoint :
      (a b : Ptr)
      → has a held ≡ true
      → has b held ≡ true
      → a ≢ b
      → (a + get_size index ≤ b) ⊎ (b + get_size index ≤ a)
  pub may_take :
      (size : ℕ)
      → OfClass index size
      → Ample index p t w
      → length held < n
      → Returns
          (λ (q, t') w'.
            (a : Ptr) → has a held ≡ true → (a + get_size index ≤ q) ⊎ (q + get_size index ≤ a))
          (allocate os t size w)
  pub may_give :
      (q other size : ℕ)
      → OfClass index size
      → has q held ≡ true
      → has other held ≡ true
      → other ≢ q
      → Returns (λ (freed, t') w'. freed ≡ true) (deallocate_sized os t q size w)

module _ (os : Platform) (unguarded : os.debug_guards ≡ false) (index p n : ℕ)
    (pages : List (ℕ × Ptr)) (base : Ptr) (some_base : 0 < base) where
  Client-Balance :
      {held : List Ptr} {t : ThreadCache} {w : World}
      → Client os index p n pages base held t w
      → Balance os index p n pages base held t w
  Client-Balance (begins free shelf all placed) = record {
    free = free;
    shelf = shelf;
    distinct = tt;
    away = λ a mine. cc;
    found = λ a mine. cc;
    placed = λ a mine. cc;
    placed_free = placed;
    total = omega (arith, all);
  }
  Client-Balance (takes {held} {t} {t'} {w} size c of ample left e) =
      Returns-done
        (allocate-Balance os unguarded index p n pages base some_base held t w size of ample left
          (Client-Balance c))
        e
  Client-Balance (gives {held} {t} {t'} {w} q other size c mine others ne of e) =
      (Returns-done
        (deallocate_sized-Balance os unguarded index p n pages base some_base held t w q other size
          of mine others ne (Client-Balance c))
        e).1
  Client-Balance (writes {held} {t} {w} slot at word c mine lo hi) =
      write-Balance os unguarded index p n pages base some_base held t w slot at word mine lo hi
        (Client-Balance c)

  -- With the guards off, a thread that takes the blocks of one class from one span: its client
  -- begins with all blocks of the span free, at equal distances of the class's size from a place
  -- above nullptr, takes blocks while the span has one, gives back what it holds as long as it holds
  -- another one, and writes anywhere inside of what it holds. When the thread has no block, the
  -- span has a whole batch. Then, after any such calls, the blocks that are held are distinct and
  -- at these distances, no two of them share a byte, the next block that `allocate` hands out
  -- shares none with any of them, and the next call ends without a fault, whether it takes a block
  -- or frees one, which is accepted.
  pub Client-Exclusive :
      {held : List Ptr} {t : ThreadCache} {w : World}
      → Client os index p n pages base held t w
      → Exclusive os index p n base held t w
  Client-Exclusive {held} {t} {w} c =
      let b = Client-Balance c in
      record {
        distinct = b.distinct;
        placed = b.placed;
        disjoint = λ a a' mine yours ne.
            OnGrid-apart base (get_size index) (b.placed a mine) (b.placed a' yours) ne;
        may_take = λ size of ample left.
            weaken
              (allocate-Balance os unguarded index p n pages base some_base held t w size of ample
                left b)
              (λ (q, t') w' b' a mine.
                OnGrid-apart base (get_size index) (b.placed a mine)
                  (b'.placed q (ground (arith, ==_refl q))) (ground (arith, b'.distinct)));
        may_give = λ q other size of mine others ne.
            weaken
              (deallocate_sized-Balance os unguarded index p n pages base some_base held t w q other
                size of mine others ne b)
              (λ (freed, t') w' (accepted, b'). accepted);
      }
