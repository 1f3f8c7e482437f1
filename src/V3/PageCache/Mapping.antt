-- ===== src/V3/PageCache/Mapping.antt =====
-- `allocateSpan` where no list has enough pages: memory fresh from the system.
use my_memory_pool.Prelude.{
  Ptr, null, ℕ, ◌+◌, ◌-◌, ◌*◌, ◌/◌, ◌≤◌, ◌<◌, ◌≡◌, refl, ◌≢◌, ◌⊎◌, arith, [], ◌∷◌, ◌++◌, none, true,
  false, ltb, ◌==◌, if◌then◌else◌, Bool-cases, Option-cases, inl, inr, ne→==, size_max,
}
use my_memory_pool.Prelude.Assoc.{lookup, insert, lookup-insert, lower_bound}
use my_memory_pool.V3.World.{
  World, Span, Platform, done, page_size, alloc_granularity, alloc_pages, new_span, default_span,
}
use my_memory_pool.Prelude.Command.{Returns, returns}
use my_memory_pool.V3.PageCache.{
  map_pages, mapping_bytes, record_mapping, system_alloc, map_span, allocate_span,
}
use my_memory_pool.V3.PageCache.Invariant.{Inv, not_listed_absent, frame, total_free-insert}
use my_memory_pool.V3.PageCache.Runs.{register_pages-run, lookup-insert_self}
use my_memory_pool.V3.PageCache.Promise.{
  Promised, Granular, Grown, Refused, mapping_bytes_lem, Mapped-new, nonzero,
}

module _ (os : Platform) (w : World) (n : ℕ) where
  abbrev bytes : ℕ
  bytes = mapping_bytes os n

  abbrev answer : Ptr
  answer = os.mmap w.system_calls (mapping_bytes os n)

  abbrev called : World
  called = record w { system_calls = w.system_calls + 1 }

  abbrev recorded : World
  recorded = record called { system_allocs = w.system_allocs ++ (answer, bytes) ∷ [] }

  abbrev new_span_of : Span
  new_span_of = record default_span {
    page_addr = answer;
    num_pages = bytes / page_size os;
    origin_addr = answer;
    origin_pages = bytes / page_size os;
  }

  abbrev grown_world : World
  grown_world = record recorded {
    spans = insert w.next_span new_span_of w.spans;
    next_span = w.next_span + 1;
    page_map = map_pages (bytes / page_size os) (answer / page_size os) w.next_span w.page_map;
  }

  too_many-run : ltb (size_max / page_size os) n ≡ true → map_span os n w ≡ done null w
  unfolding map_span system_alloc
  too_many-run e = rw e refl

  overflow-run :
      ltb (size_max / page_size os) n ≡ false
      → ltb (size_max - (alloc_granularity os - 1)) (n * page_size os) ≡ true
      → map_span os n w ≡ done null w
  unfolding map_span system_alloc
  overflow-run e f = rw (e, f) refl

  module _ (e : ltb (size_max / page_size os) n ≡ false)
      (f : ltb (size_max - (alloc_granularity os - 1)) (n * page_size os) ≡ false)
      (some_bytes : (bytes == 0) ≡ false) where
    failed-run : (answer == size_max) ≡ true → map_span os n w ≡ done null called
    unfolding map_span system_alloc alloc_pages record_mapping
    failed-run g = rw (e, f, some_bytes, g) refl

    got-run :
        (answer == size_max) ≡ false
        → (answer == null) ≡ false
        → map_span os n w ≡ done w.next_span grown_world
    unfolding map_span system_alloc alloc_pages record_mapping new_span
    got-run g h =
        rw
          (
            e,
            f,
            some_bytes,
            g,
            h,
            h,
            register_pages-run os
                (record recorded {
                  spans = insert w.next_span new_span_of w.spans;
                  next_span = w.next_span + 1;
                })
                w.next_span new_span_of (lookup-insert_self w.next_span new_span_of w.spans),
          )
          refl

module _ (os : Platform) (w : World) (n k : ℕ) (inv : Inv os w) (gran : Granular os k)
    (promised : Promised os w (mapping_bytes os n)) (pos : 0 < n) where
  absent : lookup w.next_span w.spans ≡ none
  absent = elim (Option-cases (lookup w.next_span w.spans)) [
    | inl nobody ↦ nobody
    | inr (s, there) ↦ ground (arith, inv.mapped.fresh w.next_span s there)
  ]

  -- What a call comes to: nullptr and the spans as they were, or a span of fresh memory.
  abbrev pub NullOrGrown : Ptr → World → Type 0
  NullOrGrown q w' =
      ((q ≡ null) × Refused os w n × Inv os w' × (w'.spans ≡ w.spans)) ⊎ Grown os n w q w'

  grown_world-Grown :
      n ≤ mapping_bytes os n / page_size os
      → answer os w n ≢ size_max
      → Grown os n w w.next_span (grown_world os w n)
  grown_world-Grown enough ok = record {
    inv = record {
      mapped =
          Mapped-new os (new_span_of os w n) inv.mapped (omega arith)
            (omega (arith, promised.nonnull)) (promised.page_aligned ok) (promised.unused ok);
      listed = record {
        keys = inv.listed.keys;
        lists = λ j p e.
            let (ne, (xs, chain)) = inv.listed.lists j p e in
            (
              ne,
              (
                xs,
                frame w.next_span (new_span_of os w n) chain
                    (not_listed_absent w.next_span chain absent),
              ),
            );
        counted = ground (
          arith,
          total_free-insert 1 w.next_span (new_span_of os w n) w.spans inv.mapped.sorted,
          inv.listed.counted,
          absent,
        );
      };
    };
    span = new_span_of os w n;
    alive = lookup-insert_self w.next_span (new_span_of os w n) w.spans;
    pages = enough;
    in_use = refl;
    granted = ok;
    place = refl;
    whole = (refl, refl);
    same = refl;
    others = record {
      others = λ q t here used some_q.
          let old : q < w.next_span = inv.mapped.fresh q t here in
          (ground (arith, lookup-insert w.next_span q (new_span_of os w n) w.spans), ground arith);
    };
  }

  map_span-NullOrGrown : Returns NullOrGrown (map_span os n w)
  map_span-NullOrGrown = elim (Bool-cases (ltb (size_max / page_size os) n)) [
    | inl many ↦ rw (too_many-run os w n many) (returns (inl (refl, inl (ground arith), inv, refl)))
    | inr few ↦ elim (Bool-cases (ltb (size_max - (alloc_granularity os - 1)) (n * page_size os))) [
      | inl over ↦
          rw (overflow-run os w n few over)
            (returns (inl (refl, inr (inl (ground arith)), inv, refl)))
      | inr fits ↦
          let (whole, enough) = mapping_bytes_lem os k n gran (ground arith) in
          let some_bytes : (mapping_bytes os n == 0) ≡ false =
            nonzero (mapping_bytes os n) (page_size os) (omega (arith, enough)) in
          elim (Bool-cases (answer os w n == size_max)) [
            | inl refused ↦ rw (failed-run os w n few fits some_bytes refused) (
                returns (
                  inl (
                    refl,
                    inr (inr (ground arith)),
                    record { mapped = inv.mapped; listed = inv.listed },
                    refl,
                  )))
            | inr given ↦
                rw (got-run os w n few fits some_bytes given (ne→== _ null promised.nonnull))
                  (returns (inr (grown_world-Grown enough (ground arith))))
          ]
    ]
  ]

-- Where no list has enough pages, `allocateSpan` either answers nullptr and leaves every span as it
-- was, and then the request is more than SIZE_MAX bytes, or too large to be rounded up to the
-- granularity, or the system answers MAP_FAILED; or it hands out a live span of its
-- own mapping with at least the requested pages (1 for a request of 0) that is on no list, and
-- leaves the spans in use, all of them others, as they were; the
-- invariant of the page cache holds either way. The granularity of the system is a power of two
-- and a multiple of the page size, and a mapping that succeeds begins at a page and has no page
-- that is in use.
pub allocate_span-NullOrGrown :
    (os : Platform) (w : World) (requested k : ℕ)
    → Inv os w
    → Granular os k
    → Promised os w (mapping_bytes os (if requested == 0 then 1 else requested))
    → lower_bound (if requested == 0 then 1 else requested) w.free_spans ≡ none
    → Returns
        (λ q w'.
          ((q ≡ null)
            × Refused os w (if requested == 0 then 1 else requested)
            × Inv os w'
            × (w'.spans ≡ w.spans))
          ⊎ Grown os (if requested == 0 then 1 else requested) w q w')
        (allocate_span os requested w)
unfolding allocate_span
allocate_span-NullOrGrown os w requested k inv gran promised none_left =
    rw (none_left, allocate_span)
      (map_span-NullOrGrown os w (if requested == 0 then 1 else requested) k inv gran promised
        (ground arith))
