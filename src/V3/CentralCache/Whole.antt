-- ===== src/V3/CentralCache/Whole.antt =====
-- The last block that comes back to a span: the span leaves its shard for the page cache.
use my_memory_pool.Prelude.{
  Ptr, null, update, ℕ, suc, ◌+◌, ◌≡◌, refl, ◌≢◌, true, false, arith, some, List, ◌==◌, ne→==,
  ==_refl, length,
}
use my_memory_pool.Prelude.Command.{Returns, weaken}
use my_memory_pool.Prelude.Assoc.{lookup, insert, lookup-insert, lookup_inserted}
use my_memory_pool.V3.World.{World, Span, Platform, and_then}
use my_memory_pool.V3.World.Rules.{read_span-ok, write_span-ok, store-ok}
use my_memory_pool.V3.PageCache.{page_id, find_span, find_span_locked, deallocate_span}
use my_memory_pool.V3.PageCache.Invariant.{Inv}
use my_memory_pool.V3.PageCache.Kept.{Keeps, Keeps-trans}
use my_memory_pool.V3.PageCache.Absorb.{write_used-Inv}
use my_memory_pool.V3.PageCache.Deallocate.{deallocate_span-Inv}
use my_memory_pool.V3.CentralCache.{set_partial, unlink_partial, put_block, return_block}
use my_memory_pool.V3.CentralCache.Owner.{Owner}

-- The span with its last block back, off its shard.
abbrev pub whole_span : (cur : Ptr) → Span → Span
whole_span cur s = record s { free_list = cur; free_count = s.free_count + 1; next = null }

-- The state in which the span `p` is given to the page cache.
abbrev pub whole_world : (index cur p : ℕ) → Span → World → World
whole_world index cur p s w = record w {
  word = update w.word cur s.free_list;
  spans =
      insert p (whole_span cur s)
        (insert p (record s { free_list = cur; free_count = s.free_count + 1 }) w.spans);
  partial = update w.partial index s.next;
}

module _ (os : Platform) (index cur p n : ℕ) (s : Span) (ys : List Ptr) (w : World)
    (some_cur : cur ≢ null) (at : lookup (page_id os cur) w.page_map ≡ some p)
    (last_one : suc (length ys) ≡ n) (heads : w.partial index ≡ p)
    (o : Owner index p n s ys w) where
  return_block-run :
      return_block os index cur w ≡ deallocate_span os p (whole_world index cur p s w)
  unfolding return_block find_span find_span_locked put_block unlink_partial set_partial
  return_block-run =
      let same : (s.size_class == index) ≡ true = ground (arith, o.class) in
      let complete : (s.free_count + 1 == s.block_count) ≡ true =
        ground (arith, o.counted, o.total) in
      let s1 : Span = record s { free_list = cur; free_count = s.free_count + 1 } in
      let w1 : World = record w { word = update w.word cur s.free_list } in
      let w2 : World = record w1 { spans = insert p s1 w.spans } in
      let w3 : World = record w2 { partial = update w.partial index s.next } in
      let alive1 : lookup p w2.spans ≡ some s1 = lookup_inserted p s1 w.spans in
      rw
        (
          ne→== cur null some_cur,
          at,
          and_then,
          ne→== p null o.some_span,
          read_span-ok w p o.alive,
          and_then,
          same,
          store-ok w cur s.free_list some_cur,
          and_then,
          write_span-ok w1 p o.alive s1,
          and_then,
          complete,
          heads,
          ne→== p null o.some_span,
          ==_refl p,
          read_span-ok w2 p alive1,
          and_then,
          write_span-ok w3 p alive1 (whole_span cur s),
        )
        refl

  -- For a block of a live span of the class that heads its shard and is off the free lists of the
  -- page cache, when all other blocks of the span are free: the block comes back, the span leaves
  -- the shard, which begins with the span behind it, and goes to `deallocateSpan` without a link.
  -- The call ends without a fault, the page cache keeps its invariant, and every other span in use
  -- is as it was.
  pub return_block-Whole :
      Inv os w
      → s.in_free_list ≡ false
      → ((whole_world index cur p s w).partial index ≡ s.next)
        × (return_block os index cur w ≡ deallocate_span os p (whole_world index cur p s w))
        × Returns (λ _ w'. Inv os w' × Keeps p w p w') (return_block os index cur w)
  return_block-Whole inv in_use =
      let s1 : Span = record s { free_list = cur; free_count = s.free_count + 1 } in
      let s2 : Span = whole_span cur s in
      let alive1 : lookup p (insert p s1 w.spans) ≡ some s1 = lookup_inserted p s1 w.spans in
      let inv1 = write_used-Inv os w inv p s o.alive in_use s1 refl refl in_use in
      let inv2 =
        write_used-Inv os (record w { spans = insert p s1 w.spans }) inv1 p s1 alive1 in_use s2 refl
          refl in_use in
      let alive2 : lookup p (insert p s2 (insert p s1 w.spans)) ≡ some s2 =
        lookup_inserted p s2 (insert p s1 w.spans) in
      (
        rw (==_refl index) refl,
        return_block-run,
        rw return_block-run (
            weaken
              (deallocate_span-Inv os (whole_world index cur p s w) p s2
                (record { mapped = inv2.mapped; listed = inv2.listed }) alive2 in_use)
              (λ _ w' (inv', keeps). (
                inv',
                Keeps-trans
                    (record {
                      others = λ q t here used ne. (
                        ground (
                          arith,
                          lookup-insert p q s2 (insert p s1 w.spans),
                          lookup-insert p q s1 w.spans,
                        ),
                        ne,
                      );
                    })
                    keeps,
              ))),
      )
