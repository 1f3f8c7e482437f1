-- ===== src/V3/PageCache/Runs.antt =====
-- The private functions of the page cache run to the end when their span is alive.
use my_memory_pool.Prelude.{Ptr, ℕ, ◌+◌, ◌-◌, ◌*◌, ◌/◌, ◌<◌, ◌≡◌, refl, arith, List, some}
use my_memory_pool.Prelude.Assoc.{lookup, insert, lookup-insert}
use my_memory_pool.V3.World.{World, Span, Platform, page_size, done, new_span}
use my_memory_pool.V3.World.Rules.{read_span-ok, write_span-ok}
use my_memory_pool.V3.PageCache.{
  or_null, map_pages, register_pages, push_free_span, rest_of, split_span,
}

pub lookup-insert_self :
    (p : ℕ) (t : Span) (m : List (Ptr × Span)) → lookup p (insert p t m) ≡ some t
lookup-insert_self p t m = ground (arith, lookup-insert p p t m)

abbrev pub listed_first : Span → List (ℕ × Ptr) → Span
listed_first s free_spans = record s { next = or_null (lookup s.num_pages free_spans) }

abbrev pub after_push : World → Ptr → Span → World
after_push w p s = record w {
  spans = insert p (listed_first s w.free_spans) w.spans;
  free_spans = insert s.num_pages p w.free_spans;
  cached_free_pages = w.cached_free_pages + s.num_pages;
}

module _ (os : Platform) where
  pub push_free_span-run :
      (w : World) (p : Ptr) (s : Span)
      → lookup p w.spans ≡ some s
      → push_free_span os p w ≡ done tt (after_push w p s)
  unfolding push_free_span
  push_free_span-run w p s alive =
      rw (read_span-ok w p alive, write_span-ok w p alive (listed_first s w.free_spans)) refl

  pub register_pages-run :
      (w : World) (p : Ptr) (s : Span)
      → lookup p w.spans ≡ some s
      → register_pages os p w
        ≡ done tt (record w {
          page_map = map_pages s.num_pages (s.page_addr / page_size os) p w.page_map;
        })
  unfolding register_pages
  register_pages-run w p s alive = rw (read_span-ok w p alive) refl

  abbrev pub after_split : World → Ptr → Span → ℕ → World
  after_split w p s n =
      let r = w.next_span in
      let rest = rest_of os s n in
      record w {
        spans =
            insert p (record s { num_pages = n })
              (insert r (listed_first rest w.free_spans) (insert r rest w.spans));
        next_span = w.next_span + 1;
        free_spans = insert (s.num_pages - n) r w.free_spans;
        cached_free_pages = w.cached_free_pages + (s.num_pages - n);
        page_map = map_pages n (s.page_addr / page_size os) p (
            map_pages (s.num_pages - n) ((s.page_addr + n * page_size os) / page_size os) r
              w.page_map);
      }

  pub split_span-run :
      (w : World) (p : Ptr) (s : Span) (n : ℕ)
      → lookup p w.spans ≡ some s
      → p < w.next_span
      → split_span os p n w ≡ done tt (after_split w p s n)
  unfolding split_span new_span
  split_span-run w p s n alive old =
      let r = w.next_span in
      let rest = rest_of os s n in
      let w1 : World = record w { spans = insert r rest w.spans; next_span = r + 1 } in
      let w2 : World = after_push w1 r rest in
      let w3 : World = record w2 {
        page_map = map_pages rest.num_pages (rest.page_addr / page_size os) r w2.page_map;
      } in
      let alive3 : lookup p w3.spans ≡ some s = ground (
        arith,
        lookup-insert r p (listed_first rest w.free_spans) w1.spans,
        lookup-insert r p rest w.spans,
      ) in
      let w4 : World = record w3 { spans = insert p (record s { num_pages = n }) w3.spans } in
      rw
        (
          read_span-ok w p alive,
          push_free_span-run w1 r rest (lookup-insert_self r rest w.spans),
          register_pages-run w2 r (listed_first rest w.free_spans)
              (lookup-insert_self r (listed_first rest w.free_spans) w1.spans),
          write_span-ok w3 p alive3 (record s { num_pages = n }),
          register_pages-run w4 p (record s { num_pages = n })
              (lookup-insert_self p (record s { num_pages = n }) w3.spans),
        )
        refl
