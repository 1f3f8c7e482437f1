-- ===== src/V3/ThreadCache/Begin.antt =====
-- A thread without a block of a class, and a shard without a span: a new span is all free.
use my_memory_pool.Prelude.{
  Ptr, null, update, ℕ, ◌<◌, ◌≡◌, refl, ◌⊎◌, arith, List, [], ◌==◌, ==_refl, ne→==, inl, inr, true,
}
use my_memory_pool.Prelude.Blocks.{end}
use my_memory_pool.Prelude.Command.{Returns, returns, bind}
use my_memory_pool.V3.SizeClass.{get_size}
use my_memory_pool.V3.World.{World, Platform}
use my_memory_pool.V3.PageCache.{mapping_bytes}
use my_memory_pool.V3.PageCache.Invariant.{Inv}
use my_memory_pool.V3.PageCache.Kept.{Keeps}
use my_memory_pool.V3.PageCache.Promise.{Promised, Granular}
use my_memory_pool.V3.CentralCache.{span_pages, set_partial, available_span}
use my_memory_pool.V3.CentralCache.Carve.{block_addresses}
use my_memory_pool.V3.CentralCache.Create.{Created, create_span-Created}
use my_memory_pool.V3.ThreadCache.{ThreadCache}
use my_memory_pool.V3.ThreadCache.Shelf.{Shelf}
use my_memory_pool.V3.ThreadCache.Client.{Client, begins}

module _ (os : Platform) (index : ℕ) (class : index < 56) (t : ThreadCache)
    (nothing : t.free_list index ≡ null) (none : t.free_list_size index ≡ 0) where
  Created-Client :
      (q : Ptr) (w : World)
      → (c : Created os index q w)
      → Client os index q c.n w.page_map c.base [] t
          (record w { partial = update w.partial index q })
  Created-Client q w c =
      let all : List Ptr = block_addresses c.n 0 c.base (get_size index) in
      let w' : World = record w { partial = update w.partial index q } in
      let shelf : Shelf os index q c.n w.page_map t [] all w' = record {
        own = rw nothing end;
        own_counted = none;
        bounded = omega arith;
        span = c.span;
        owner = record {
          some_span = c.owner.some_span;
          alive = c.owner.alive;
          class = c.owner.class;
          total = c.owner.total;
          blocks = c.owner.blocks;
          counted = c.owner.counted;
        };
        heads = λ _. rw (==_refl index) refl;
        apart = λ a on. cc;
        mapped = refl;
        own_pages = λ a on. cc;
        span_pages = c.found;
      } in
      begins all ([], (all, (refl, shelf))) c.all_free c.placed

  -- The span as the head of its shard.
  joined :
      (q : Ptr) (w : World)
      → Created os index q w
      → Created os index q (record w { partial = update w.partial index q })
  joined q w c = record {
    n = c.n;
    base = c.base;
    room = c.room;
    above_null = c.above_null;
    span = c.span;
    in_use = c.in_use;
    starts = c.starts;
    fits = c.fits;
    filled = c.filled;
    owner = record {
      some_span = c.owner.some_span;
      alive = c.owner.alive;
      class = c.owner.class;
      total = c.owner.total;
      blocks = c.owner.blocks;
      counted = c.owner.counted;
    };
    all_free = c.all_free;
    placed = c.placed;
    found = c.found;
  }

  -- For a class of which a thread has no block and the shard no span, the step of `fetchRange` that
  -- finds a span runs to the end without a fault, keeps the invariant of the page cache, and leaves
  -- the spans that were in use as they were. It answers nullptr, or a span that was not in use, is
  -- off the free lists of the page cache, and is cut from its first byte on into as many blocks of
  -- the class as lie inside of it, four or more; a client of the thread may begin at all of these
  -- blocks. The page cache keeps its invariant before, the
  -- granularity of the system is a power of two and a multiple of the page size, and a mapping that
  -- succeeds begins at a page and has no page that is in use.
  pub available_span-Client :
      (w : World) (k : ℕ)
      → Inv os w
      → Granular os k
      → Promised os w (mapping_bytes os (span_pages os (get_size index)))
      → w.partial index ≡ null
      → Returns
          (λ q w'.
            Inv os w'
            × (Keeps null w q w'
                × ((q ≡ null)
                    ⊎ ((c : Created os index q w') × Client os index q c.n w'.page_map c.base [] t
                          w'))))
          (available_span os index w)
  unfolding available_span set_partial joined
  available_span-Client w k inv gran promised empty = rw empty (
      bind (create_span-Created os index class w k inv gran promised) (λ q w' (inv', (keeps, r)).
        elim r [
          | inl e ↦
              let absent : (q == null) ≡ true = ground arith in
              rw absent (returns (inv', (keeps, inl e)))
          | inr c ↦ rw (ne→== q null c.owner.some_span) (
              returns (
                record { mapped = inv'.mapped; listed = inv'.listed },
                (record { others = keeps.others }, inr (joined q w' c, Created-Client q w' c)),
              ))
        ]))
