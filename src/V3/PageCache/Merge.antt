-- ===== src/V3/PageCache/Merge.antt =====
-- Spans that go: a neighbour that is taken in, and a span that is given back to the system.
use my_memory_pool.Prelude.{
  Ptr, ℕ, ◌+◌, ◌-◌, ◌%◌, ◌≤◌, ◌<◌, ◌≡◌, ◌≢◌, arith, List, none, some, false, ltb, leb, ◌&&◌, ◌==◌,
  if◌then◌else◌, Bool-cases, inl, inr, sym, ap,
}
use my_memory_pool.Prelude.Assoc.{
  lookup, insert, erase, lookup-insert, lookup-erase, insert-IsSorted, erase-IsSorted, key_ge,
}
use my_memory_pool.V3.World.{Span, Platform, page_size}
use my_memory_pool.V3.PageCache.{map_pages, unmap_pages}
use my_memory_pool.V3.PageCache.Pages.{lookup-map_pages, lookup-unmap_pages}
use my_memory_pool.V3.PageCache.Invariant.{SpanMap, first_page, Mapped}
use my_memory_pool.V3.PageCache.Split.{own_pages}

module _ (os : Platform) {spans : SpanMap} {next : Ptr} {pages : List (ℕ × Ptr)} (p : Ptr)
    (s : Span) (v : Mapped os spans next pages) (alive : lookup p spans ≡ some s) where
  -- A span is gone, and its pages lead nowhere.
  pub Mapped-remove :
      Mapped os (erase p spans) next (unmap_pages s.num_pages (first_page os s) pages)
  Mapped-remove = record {
    sorted = erase-IsSorted 1 p spans v.sorted;
    next_pos = v.next_pos;
    fresh = λ q u e. ground (arith, lookup-erase p q spans, v.fresh q u);
    nonempty = λ q u e. ground (arith, lookup-erase p q spans, v.nonempty q u);
    above_null = λ q u e. ground (arith, lookup-erase p q spans, v.above_null q u);
    aligned = λ q u e. ground (arith, lookup-erase p q spans, v.aligned q u);
    registered = λ q u i e h.
        let kept : lookup q spans ≡ some u = ground (arith, lookup-erase p q spans) in
        let other : (p == q) ≡ false = ground (arith, lookup-erase p q spans) in
        ground (
          arith,
          lookup-unmap_pages s.num_pages (first_page os s) (first_page os u + i) pages,
          v.registered q u i kept h,
          own_pages os p q s u (first_page os u + i - first_page os s) i v alive kept,
        );
    owned = λ j q e.
        let kept : lookup j pages ≡ some q =
          ground (arith, lookup-unmap_pages s.num_pages (first_page os s) j pages) in
        let (u, there, lo, hi) = v.owned j q kept in
        let other : (p == q) ≡ false =
          ground (arith, lookup-unmap_pages s.num_pages (first_page os s) j pages) in
        (u, ground (arith, lookup-erase p q spans), lo, hi);
  }

  -- The pages of the span `p` are taken into the span `q` before it, which then is `t`.
  pub Mapped-merge :
      (q : Ptr) (u t : Span)
      → lookup q spans ≡ some u
      → p ≢ q
      → 0 < t.page_addr
      → t.page_addr % page_size os ≡ 0
      → t.num_pages ≡ u.num_pages + s.num_pages
      → first_page os t ≡ first_page os u
      → first_page os s ≡ first_page os u + u.num_pages
      → Mapped os
          (erase p (insert q t spans))
          next
          (map_pages s.num_pages (first_page os s) q pages)
  Mapped-merge q u t there ne some_place whole size first next_to = record {
    sorted =
        erase-IsSorted 1 p (insert q t spans)
          (insert-IsSorted 1 q t spans (key_ge 1 q u spans v.sorted there) v.sorted);
    next_pos = v.next_pos;
    fresh = λ r x e. ground (arith, at r, v.fresh r x, v.fresh q u there);
    nonempty = λ r x e. ground (arith, at r, v.nonempty r x, v.nonempty q u there);
    above_null = λ r x e. ground (arith, at r, v.above_null r x);
    aligned = λ r x e. ground (arith, at r, v.aligned r x);
    registered = registered;
    owned = owned;
  }
    where
      at :
          (r : Ptr)
          → lookup r (erase p (insert q t spans))
            ≡ (if p == r then none else if q == r then some t else lookup r spans)
      at r = ground (arith, lookup-erase p r (insert q t spans), lookup-insert q r t spans)

      page_at :
          (j : ℕ)
          → lookup j (map_pages s.num_pages (first_page os s) q pages) ≡ (
              if leb (first_page os s) j && ltb j (first_page os s + s.num_pages)
              then some q
              else lookup j pages)
      page_at j = lookup-map_pages s.num_pages (first_page os s) q j pages

      registered :
          (r : Ptr) (x : Span) (i : ℕ)
          → lookup r (erase p (insert q t spans)) ≡ some x
          → i < x.num_pages
          → lookup (first_page os x + i) (map_pages s.num_pages (first_page os s) q pages) ≡ some r
      registered r x i e h = elim (Bool-cases (q == r)) [
        | inl grown ↦
            let same : t ≡ x = ground (arith, at r) in
            let first' : first_page os x ≡ first_page os t = ap (first_page os) (sym same) in
            let pages_of : x.num_pages ≡ u.num_pages + s.num_pages = ground (arith, same, whole) in
            ground (
              arith,
              page_at (first_page os x + i),
              first',
              first,
              next_to,
              pages_of,
              v.registered q u (first_page os x + i - first_page os u) there,
            )
        | inr other ↦
            let kept : lookup r spans ≡ some x = ground (arith, at r) in
            let apart : (p == r) ≡ false = ground (arith, at r) in
            ground (
              arith,
              page_at (first_page os x + i),
              v.registered r x i kept h,
              own_pages os p r s x (first_page os x + i - first_page os s) i v alive kept,
            )
      ]

      owned :
          (j : ℕ) (r : Ptr)
          → lookup j (map_pages s.num_pages (first_page os s) q pages) ≡ some r
          → (x : Span) × (lookup r (erase p (insert q t spans)) ≡ some x)
            × (first_page os x ≤ j)
            × (j < first_page os x + x.num_pages)
      owned j r e =
          elim (Bool-cases (leb (first_page os s) j && ltb j (first_page os s + s.num_pages))) [
            | inl inside ↦
                let grown : q ≡ r = ground (arith, page_at j) in
                (
                  t,
                  ground (arith, at r, ne),
                  ground (arith, first, next_to, whole),
                  ground (arith, first, next_to, whole),
                )
            | inr outside ↦
                let kept : lookup j pages ≡ some r = ground (arith, page_at j) in
                let (x, mine, lo, hi) = v.owned j r kept in
                let apart : (p == r) ≡ false = ground (arith, alive) in
                elim (Bool-cases (q == r)) [
                  | inl grown ↦
                      let same : u ≡ x = ground (arith, there) in
                      (
                        t,
                        ground (arith, at r, ne),
                        ground (arith, first, next_to, whole, same),
                        ground (arith, first, next_to, whole, same),
                      )
                  | inr other ↦ (x, ground (arith, at r), lo, hi)
                ]
          ]
