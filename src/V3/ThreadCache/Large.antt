-- ===== src/V3/ThreadCache/Large.antt =====
-- Requests above MAX_BYTES: a span each, from `allocate` to `deallocate`.
use native.Mathlib.Nat.{lt-div-mul-add, mul-le-mul_right}
use my_memory_pool.Prelude.{
  Ptr, null, ℕ, ◌+◌, ◌-◌, ◌*◌, ◌/◌, ◌≤◌, ◌<◌, ◌≡◌, refl, ◌≢◌, ◌⊎◌, arith, [], some, true, false,
  ltb, ◌==◌, Bool-cases, inl, inr, ne→==, size_max,
}
use my_memory_pool.Prelude.Assoc.{lookup, key_ge}
use my_memory_pool.V3.World.{World, Span, Platform, done, pure, and_then, page_size}
use my_memory_pool.Prelude.Command.{Returns, returns, bind}
use my_memory_pool.V3.World.Rules.{read_span-ok, write_span-ok}
use my_memory_pool.V3.PageCache.{find_span, deallocate_span, mapping_bytes}
use my_memory_pool.V3.PageCache.Invariant.{Inv}
use my_memory_pool.V3.PageCache.Kept.{Keeps}
use my_memory_pool.V3.PageCache.Promise.{Promised, Granular}
use my_memory_pool.V3.PageCache.Serve.{allocate_span-Served}
use my_memory_pool.V3.PageCache.Absorb.{write_used-Inv}
use my_memory_pool.V3.PageCache.Deallocate.{deallocate_span-Inv}
use my_memory_pool.V3.PageCache.Lookup.{find_span-owner}
use my_memory_pool.V3.PageCache.Runs.{lookup-insert_self}
use my_memory_pool.V3.ThreadCache.{
  ThreadCache, allocate_large, deallocate, debug_validate_and_mark_freed,
}

-- The block `ptr` is a span of its own that holds `size` bytes.
pub record LargeBlock (os : Platform) (size : ℕ) (ptr : Ptr) (w : World) : Type 0 where
  pub span : Span
  pub at : Ptr
  pub alive : lookup at w.spans ≡ some span
  pub start : span.page_addr ≡ ptr
  pub large : span.is_large ≡ true
  pub in_use : span.in_free_list ≡ false
  pub holds : size ≤ span.num_pages * page_size os

page_pos : (os : Platform) → 0 < page_size os
unfolding page_size
page_pos os = ground arith

pages_pos : (size p : ℕ) → 0 < size → 0 < p → 0 < (size + p - 1) / p
pages_pos size p h pos = grind arith

-- The span as `allocate` marks it.
abbrev large_span : ℕ → Span → Span
large_span size span = record span {
  is_large = true;
  block_size = size;
  block_count = 1;
  free_count = 0;
  size_class = size_max;
  debug_alloc_map = [];
  debug_large_allocated = true;
}

round_up_pages : (size p : ℕ) → 0 < p → size ≤ (size + p - 1) / p * p
round_up_pages size p pos = omega (arith, lt-div-mul-add {a = size + p - 1} pos)

module _ (os : Platform) where
  -- The branch of `allocate` for a size above MAX_BYTES runs to the end for any size but 0 and
  -- keeps the invariant of the page cache; unless it answers nullptr, the block begins a live
  -- span that is marked as large, is on no list and holds the size. The page cache keeps its
  -- invariant before, and the system keeps its promises as for `allocateSpan`.
  pub allocate_large-LargeBlock :
      (w : World) (k size : ℕ)
      → Inv os w
      → Granular os k
      → 0 < size
      → Promised os w (mapping_bytes os ((size + page_size os - 1) / page_size os))
      → Returns
          (λ ptr w'. Inv os w' × ((ptr ≡ null) ⊎ LargeBlock os size ptr w'))
          (allocate_large os size w)
  unfolding allocate_large
  allocate_large-LargeBlock w k size inv gran pos promised =
      elim (Bool-cases (ltb (size_max - (page_size os - 1)) size)) [
        | inl over ↦ rw over (returns (inv, inl refl))
        | inr fits ↦ rw fits (
            bind
              (allocate_span-Served os w k inv gran ((size + page_size os - 1) / page_size os)
                (pages_pos size (page_size os) pos (page_pos os)) promised)
              (λ q w' (inv', (r, _)). elim r [
                | inl e ↦
                    let nothing : (q == null) ≡ true = ground arith in
                    rw nothing (returns (inv', inl refl))
                | inr s ↦
                    rw
                      (
                        ne→== q null s.nonnull,
                        read_span-ok w' q s.alive,
                        write_span-ok w' q s.alive (large_span size s.span),
                      )
                      (returns (
                        write_used-Inv os w' inv' q s.span s.alive s.in_use (large_span size s.span)
                            refl refl s.in_use,
                        inr (record {
                          span = large_span size s.span;
                          at = q;
                          alive = lookup-insert_self q (large_span size s.span) w'.spans;
                          start = refl;
                          large = refl;
                          in_use = s.in_use;
                          holds = held s.span.num_pages s.pages;
                        }),
                      ))
              ]))
      ]
    where
      held :
          (pages : ℕ)
          → (size + page_size os - 1) / page_size os ≤ pages
          → size ≤ pages * page_size os
      held pages h = omega (
        arith,
        round_up_pages size (page_size os) (page_pos os),
        mul-le-mul_right (page_size os) h,
      )

  validated :
      (p ptr expected : ℕ)
      → os.debug_guards ≡ false
      → debug_validate_and_mark_freed os p ptr expected ≡ pure true
  unfolding debug_validate_and_mark_freed
  validated p ptr expected e = rw e

  deallocate-run :
      (w : World) (t : ThreadCache) (size : ℕ) (ptr : Ptr)
      → os.debug_guards ≡ false
      → Inv os w
      → (b : LargeBlock os size ptr w) → 0 < size
      → deallocate os t ptr w ≡ and_then (deallocate_span os b.at w) (λ _. pure (true, t))
  unfolding deallocate
  deallocate-run w t size ptr unguarded inv b pos =
      let ne : ptr ≢ null = omega (arith, inv.mapped.above_null b.at b.span b.alive, b.start) in
      let found : find_span os ptr w ≡ done b.at w =
        find_span-owner os w b.at b.span ptr inv b.alive (omega (arith, b.start))
          (omega (arith, b.start, b.holds)) in
      let some_span : (b.at == null) ≡ false =
        ground (arith, key_ge 1 b.at b.span w.spans inv.mapped.sorted b.alive) in
      rw
        (
          ne→== ptr null ne,
          found,
          some_span,
          read_span-ok w b.at b.alive,
          b.large,
          validated b.at ptr size_max unguarded,
        )
        refl

  -- With the guards off, `deallocate` of a large block of a size above 0 gives the span of the block
  -- to `deallocateSpan`, does nothing else and answers true. It runs to the end, leaves the lists of
  -- the thread and every other span in use as they were and keeps the invariant of the page cache.
  pub deallocate-LargeBlock :
      (w : World) (t : ThreadCache) (size : ℕ) (ptr : Ptr)
      → os.debug_guards ≡ false
      → Inv os w
      → (b : LargeBlock os size ptr w) → 0 < size
      → (deallocate os t ptr w ≡ and_then (deallocate_span os b.at w) (λ _. pure (true, t)))
        × Returns
            (λ (freed, t') w'. (freed ≡ true) × (t' ≡ t) × Inv os w' × Keeps b.at w b.at w')
            (deallocate os t ptr w)
  deallocate-LargeBlock w t size ptr unguarded inv b pos =
      let run = deallocate-run w t size ptr unguarded inv b pos in
      (
        run,
        rw run (
            bind (deallocate_span-Inv os w b.at b.span inv b.alive b.in_use)
              (λ _ w' (inv', keeps). returns (refl, refl, inv', keeps))),
      )
