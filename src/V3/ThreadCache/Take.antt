-- ===== src/V3/ThreadCache/Take.antt =====
-- `allocate` from the free blocks of a class between a thread and one span: the thread's first block,
-- or a batch from the span.
use my_memory_pool.Prelude.{
  Ptr, null, ℕ, suc, ◌+◌, ◌-◌, ◌≤◌, ◌<◌, ◌≡◌, refl, false, ◌||◌, arith, List, [], ◌∷◌, ◌++◌, ◌==◌,
  ltb, ne→==, ==_refl, length, take, drop, length-take, take-append-drop, subst, sym, ap, ◌∙◌,
  Bool-cases, inl, inr, add64, if◌then◌else◌,
}
use my_memory_pool.V3.SizeClass.Laws.{get_index_least, free_list_size_lem}
use mathlib.Core.List.{head-eq_of_cons-eq, tail-eq_of_cons-eq}
use my_memory_pool.Prelude.Blocks.{Blocks, has, head_null}
use my_memory_pool.Prelude.Blocks.Join.{first, first_some, rest, has-append, halves-Apart}
use my_memory_pool.Prelude.Command.{Returns, returns, bind, weaken}
use my_memory_pool.V3.SizeClass.{max_bytes, get_size, get_index}
use my_memory_pool.V3.World.{World, Platform, Counters, done, pure, and_then}
use my_memory_pool.V3.World.Rules.{load-ok}
use my_memory_pool.V3.CentralCache.Source.{Source, Remains}
use my_memory_pool.V3.CentralCache.Batch.{fetch_range-Remains}
use my_memory_pool.V3.Counters.{record_central_refill}
use my_memory_pool.V3.ThreadCache.{
  ThreadCache, set_list, max_cached_blocks, get_batch_num, hand_out, count_refill,
  fetch_from_central, allocate_small, allocate,
}
use my_memory_pool.V3.ThreadCache.Limits.{get_batch_num_bounds}
use my_memory_pool.V3.ThreadCache.Shelf.{Shelf, OnShelf}

module _ (os : Platform) (unguarded : os.debug_guards ≡ false) (index p n : ℕ)
    (pages : List (ℕ × Ptr)) where
  hand_out-unguarded : (ptr : Ptr) → hand_out os ptr ≡ pure ptr
  unfolding hand_out
  hand_out-unguarded ptr = rw unguarded

  allocate_own :
      (t : ThreadCache) (x : Ptr) (xs ys : List Ptr) (w : World)
      → Shelf os index p n pages t (x ∷ xs) ys w
      → Returns
          (λ (r, t') w'. (r ≡ x) × Shelf os index p n pages t' xs ys w')
          (allocate_small os t index w)
  unfolding allocate_small
  allocate_own t x xs ys w f =
      rw
        (
          ne→== _ null (first_some f.own),
          load-ok w _ (first_some f.own),
          hand_out-unguarded (t.free_list index),
        )
        (returns (
          first f.own,
          record {
            own = rw (==_refl index) (rest f.own);
            own_counted = rw (==_refl index) (ground (arith, f.own_counted));
            bounded = omega (arith, f.bounded);
            span = f.span;
            owner = f.owner;
            heads = f.heads;
            apart = λ a h. f.apart a (ground arith);
            mapped = f.mapped;
            own_pages = λ a h. f.own_pages a (ground arith);
            span_pages = f.span_pages;
          },
        ))

  count_refill-run :
      (k : ℕ) (w : World)
      → (c : Counters) × (count_refill os k w ≡ done tt (record w { counters = c }))
  unfolding count_refill record_central_refill
  count_refill-run k w = elim (Bool-cases (ltb 0 k)) [
    | inl some_blocks ↦ elim (Bool-cases os.stats_enabled) [
      | inl on ↦ (
        record (w.counters) { central_refill_count = add64 w.counters.central_refill_count k },
        rw (some_blocks, on) refl,
      )
      | inr off ↦ (w.counters, rw (some_blocks, off) refl)
    ]
    | inr no_block ↦ (w.counters, rw no_block refl)
  ]

  has-take-drop : (a m : ℕ) (ys : List Ptr) → has a ys ≡ (has a (take m ys) || has a (drop m ys))
  has-take-drop a m ys =
      ap (λ (l : List Ptr). has a l) (sym (take-append-drop m ys))
      ∙ has-append a (take m ys) (drop m ys)

  -- The thread's new list, and what is left in the span.
  batch-Shelf :
      (t : ThreadCache) (y start m : ℕ) (ys : List Ptr) (c : Counters) (w w' : World)
      → suc m ≤ length (y ∷ ys)
      → suc m ≤ max_cached_blocks (get_size index)
      → (f : Shelf os index p n pages t [] (y ∷ ys) w) → Blocks w'.word start (y ∷ take m ys)
      → Remains index p f.span.size_class f.span.block_count f.span.next w.page_map (drop m ys) w'
      → Shelf os index p n pages
          (set_list t index (w'.word start) (t.free_list_size index + m))
          (take m ys)
          (drop m ys)
          (record w' { counters = c })
  batch-Shelf t y start m ys c w w' le limit f l r = record {
    own = rw (==_refl index) (rest l);
    own_counted = rw (==_refl index) (omega (arith, f.own_counted, length-take m ys));
    bounded = omega (arith, length-take m ys);
    span = r.span;
    owner = record {
      some_span = f.owner.some_span;
      alive = r.alive;
      class = r.same_class ∙ f.owner.class;
      total = r.same_total ∙ f.owner.total;
      blocks = r.blocks;
      counted = r.counted;
    };
    heads = λ h. (r.heads h).0;
    apart = halves-Apart (take m ys) (drop m ys) (
        subst (λ (l : List Ptr). Blocks w.word (w.word f.span.free_list) l)
          (sym (take-append-drop m ys)) (rest f.owner.blocks));
    mapped = r.mapped ∙ f.mapped;
    own_pages = λ a h. f.span_pages a (ground (arith, has-take-drop a m ys));
    span_pages = λ a h. f.span_pages a (ground (arith, has-take-drop a m ys));
  }

  allocate_batch :
      (t : ThreadCache) (y : Ptr) (ys : List Ptr) (w : World)
      → index < 56
      → get_batch_num (get_size index) ≤ length (y ∷ ys)
      → Shelf os index p n pages t [] (y ∷ ys) w
      → Returns
          (λ (r, t') w'. (r ≡ y) × OnShelf os index p n pages ys t' w')
          (allocate_small os t index w)
  unfolding allocate_small fetch_from_central
  allocate_batch t y ys w class le f =
      let bounds = get_batch_num_bounds (get_size index) in
      let m : ℕ = get_batch_num (get_size index) - 1 in
      let e : get_batch_num (get_size index) ≡ suc m = omega (arith, bounds.0) in
      let source : Source index p f.span (y ∷ ys) w = record {
        heads = f.heads (omega arith);
        some_span = f.owner.some_span;
        alive = f.owner.alive;
        blocks = f.owner.blocks;
        counted = f.owner.counted;
      } in
      rw (head_null f.own, e)
        (bind
          (fetch_range-Remains os index (suc m) p f.span (y ∷ ys) w class (omega arith)
            (omega (arith, e)) source)
          (λ (start, fetched) w' (l, (count, r)).
            let (c, counts) = count_refill-run (suc m) w' in
            let left_over : (if ltb 0 (suc m) then suc m - 1 else 0) ≡ m = ground arith in
            rw
              (
                ne→== start null (first_some l),
                load-ok w' start (first_some l),
                and_then,
                count,
                counts,
                and_then,
                hand_out-unguarded start,
                and_then,
                left_over,
              )
              (returns (
                first l,
                (
                  take m ys,
                  (
                    drop m ys,
                    (
                      take-append-drop m ys,
                      batch-Shelf t y start m ys c w w' (omega (arith, e))
                          (omega (arith, e, bounds.2)) f l r,
                    ),
                  ),
                ),
              ))))

  -- With the guards off, where the free blocks of a class that lie in one span are on two counted
  -- lists, first the thread's, within its limit, then the span's, and the span heads its shard if it
  -- has any: a request of 1 to MAX_BYTES of the class takes the first of them, and the others stay in
  -- order on two such lists, with the page map as it was. A thread that has none gets a batch from
  -- the span, which has to have that many.
  pub allocate-OnShelf :
      (t : ThreadCache) (size q : ℕ) (xs ys zs : List Ptr) (w : World)
      → 0 < size
      → size ≤ max_bytes
      → get_index size ≡ index
      → (length xs ≡ 0 → get_batch_num (get_size index) ≤ length ys)
      → Shelf os index p n pages t xs ys w
      → xs ++ ys ≡ q ∷ zs
      → Returns (λ (r, t') w'. (r ≡ q) × OnShelf os index p n pages zs t' w') (allocate os t size w)
  unfolding allocate
  allocate-OnShelf t size q xs ys zs w pos le same batch f e =
      let given : (size == 0) ≡ false = ground arith in
      let small : ltb max_bytes size ≡ false = ground arith in
      rw (given, small, same) (top xs ys batch f e)
    where
      class : index < 56
      class = omega (arith, same, (get_index_least size pos le).0, free_list_size_lem)

      top :
          (xs ys : List Ptr)
          → (length xs ≡ 0 → get_batch_num (get_size index) ≤ length ys)
          → Shelf os index p n pages t xs ys w
          → xs ++ ys ≡ q ∷ zs
          → Returns
              (λ (r, t') w'. (r ≡ q) × OnShelf os index p n pages zs t' w')
              (allocate_small os t index w)
      top [] [] batch f e = cc
      top [] (y ∷ ys) batch f e =
          weaken (allocate_batch t y ys w class (batch refl) f) (λ (r, t') w' (at, found). (
            at ∙ head-eq_of_cons-eq e,
            subst (λ (l : List Ptr). OnShelf os index p n pages l t' w') (tail-eq_of_cons-eq e)
                found,
          ))
      top (x ∷ xs) ys batch f e = weaken (allocate_own t x xs ys w f) (λ (r, t') w' (at, f').
          (at ∙ head-eq_of_cons-eq e, (xs, (ys, (tail-eq_of_cons-eq e, f')))))
