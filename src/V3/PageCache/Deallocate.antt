-- ===== src/V3/PageCache/Deallocate.antt =====
-- `deallocateSpan`: a span goes back to a free list, merged with its free neighbours, or to the
-- system.
use my_memory_pool.Prelude.{
  Ptr, null, ◌+◌, ◌/◌, ◌≡◌, refl, arith, some, true, false, ltb, ◌&&◌, ◌==◌, Bool-cases, inl, inr,
}
use my_memory_pool.Prelude.Assoc.{lookup, insert, lookup-insert, key_ge}
use my_memory_pool.V3.World.{World, Span, Platform, page_size}
use my_memory_pool.Prelude.Command.{Returns, returns, bind, weaken}
use my_memory_pool.V3.World.Rules.{read_span-ok, write_span-ok}
use my_memory_pool.V3.PageCache.{
  retire_span, coalesce, cleared, returns_direct, deallocate_span, max_cached_bytes,
}
use my_memory_pool.V3.PageCache.Invariant.{Inv, not_listed}
use my_memory_pool.V3.PageCache.Split.{Mapped-write}
use my_memory_pool.V3.PageCache.Runs.{push_free_span-run, lookup-insert_self, listed_first}
use my_memory_pool.V3.PageCache.Push.{push-Listed, insert-insert}
use my_memory_pool.V3.PageCache.Kept.{Keeps, Keeps-trans, Keeps-end}
use my_memory_pool.V3.PageCache.Neighbours.{merge_next-Merged, merge_prev-Merged}
use my_memory_pool.V3.PageCache.Absorb.{
  InUse, Settled, write-Keeps, write_used-Inv, release_origin-Settled,
}

module _ (os : Platform) (w : World) (inv : Inv os w) (p : Ptr) (s : Span)
    (alive : lookup p w.spans ≡ some s) (used : s.in_free_list ≡ false) where
  abbrev listed_again : World
  listed_again = record w {
    spans = insert p (listed_first (record s { in_free_list = true }) w.free_spans) w.spans;
    free_spans = insert s.num_pages p w.free_spans;
    cached_free_pages = w.cached_free_pages + s.num_pages;
  }

  listed_again-Inv : Inv os listed_again
  listed_again-Inv =
      let t = record s { in_free_list = true } in
      record {
        mapped = Mapped-write os p s (listed_first t w.free_spans) inv.mapped alive refl refl;
        listed =
            push-Listed inv.mapped.sorted inv.listed p t
              (key_ge 1 p s w.spans inv.mapped.sorted alive)
              (λ k q xs chain. not_listed p s chain alive (λ _. used)) (ground arith) refl;
      }

  listed_again-Keeps : Keeps p w p listed_again
  listed_again-Keeps = record {
    others = λ q t here in_use other. (
      ground (
        arith,
        lookup-insert p q (listed_first (record s { in_free_list = true }) w.free_spans) w.spans,
      ),
      other,
    );
  }

  retire_span-Settled : Returns (λ _ w'. Settled os p w w') (retire_span os p w)
  unfolding retire_span
  retire_span-Settled =
      let t = record s { in_free_list = true } in
      elim (Bool-cases (
        (s.origin_addr == s.page_addr)
        && ((s.num_pages == s.origin_pages)
            && ltb (max_cached_bytes / page_size os) (w.cached_free_pages + s.num_pages)))) [
              | inl over ↦
                  rw (read_span-ok w p alive, over) (release_origin-Settled os w inv p s alive used)
              | inr keep ↦
                  rw
                    (
                      read_span-ok w p alive,
                      keep,
                      write_span-ok w p alive t,
                      push_free_span-run os (record w { spans = insert p t w.spans }) p t
                          (lookup-insert_self p t w.spans),
                      insert-insert 1 p (listed_first t w.free_spans) t w.spans inv.mapped.sorted,
                    )
                    (returns (listed_again-Inv, listed_again-Keeps))
            ]

module _ (os : Platform) where
  coalesce-Settled :
      (w : World) (p : Ptr) → InUse os p w → Returns (λ _ w'. Settled os p w w') (coalesce os p w)
  unfolding coalesce
  coalesce-Settled w p u = bind (merge_next-Merged os w u.inv p u.span u.alive u.used) λ _ w1 m1.
      let u1 = m1.now in
      bind (merge_prev-Merged os w1 u1.inv p u1.span u1.alive u1.used) λ q w2 m2.
        let u2 = m2.now in
        weaken (retire_span-Settled os w2 u2.inv q u2.span u2.alive u2.used)
          λ _ w3 (inv, last). (inv, Keeps-end (Keeps-trans (Keeps-trans m1.keeps m2.keeps) last))

  -- `deallocateSpan` of a live span that is on no list runs to the end without following a null or
  -- dangling pointer, whichever neighbours it is merged with and whether it is kept or goes back
  -- to the system, keeps the invariant of the page cache, and leaves every other span that is on
  -- no list as it was.
  pub deallocate_span-Inv :
      (w : World) (p : Ptr) (s : Span)
      → Inv os w
      → lookup p w.spans ≡ some s
      → s.in_free_list ≡ false
      → Returns (λ _ w'. Inv os w' × Keeps p w p w') (deallocate_span os p w)
  unfolding deallocate_span
  deallocate_span-Inv w p s inv alive used =
      let some_span : (p == null) ≡ false =
        ground (arith, key_ge 1 p s w.spans inv.mapped.sorted alive) in
      let w1 : World = record w { spans = insert p (cleared os s) w.spans } in
      let inv1 = write_used-Inv os w inv p s alive used (cleared os s) refl refl used in
      let alive1 = lookup-insert_self p (cleared os s) w.spans in
      let keeps1 = write-Keeps os w inv p s alive used (cleared os s) in
      elim (Bool-cases (returns_direct os s)) [
        | inl direct ↦
            rw (some_span, read_span-ok w p alive, write_span-ok w p alive (cleared os s), direct)
              (weaken (release_origin-Settled os w1 inv1 p (cleared os s) alive1 used)
                (λ _ w' (inv', rest). (inv', Keeps-trans keeps1 rest)))
        | inr kept ↦
            rw (some_span, read_span-ok w p alive, write_span-ok w p alive (cleared os s), kept)
              (weaken
                (coalesce-Settled w1 p
                  (record { inv = inv1; span = cleared os s; alive = alive1; used = used }))
                (λ _ w' (inv', rest). (inv', Keeps-trans keeps1 rest)))
      ]
