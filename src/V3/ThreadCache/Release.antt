-- ===== src/V3/ThreadCache/Release.antt =====
-- A block that a thread frees with its size: it joins the free blocks of its class, and none is lost.
use mathlib.Core.List.Perm
use my_memory_pool.Prelude.{
  Ptr, null, update, ℕ, suc, ◌+◌, ◌≤◌, ◌<◌, ◌≡◌, refl, ◌≢◌, true, false, arith, some, List, ◌∷◌,
  ◌++◌, ◌==◌, ltb, ==_refl, length, subst, Bool-cases, inl, inr,
}
use my_memory_pool.Prelude.Assoc.{lookup}
use my_memory_pool.Prelude.Blocks.{has, push}
use my_memory_pool.Prelude.Blocks.Join.{has-append}
use my_memory_pool.Prelude.Command.{Returns, returns, bind}
use my_memory_pool.V3.SizeClass.{max_bytes, get_size, get_index}
use my_memory_pool.V3.SizeClass.Laws.{get_index_least, free_list_size_lem}
use my_memory_pool.V3.World.{World, Platform, and_then}
use my_memory_pool.V3.World.Rules.{store-ok}
use my_memory_pool.V3.PageCache.{page_id}
use my_memory_pool.V3.CentralCache.Owner.{frame-Owner}
use my_memory_pool.V3.ThreadCache.{
  ThreadCache, set_list, max_cached_blocks, should_return_to_central, push_block, accept_block,
  deallocate_sized,
}
use my_memory_pool.V3.ThreadCache.Reuse.{deallocate_sized-accept}
use my_memory_pool.V3.ThreadCache.Shelf.{Shelf}
use my_memory_pool.V3.ThreadCache.Flush.{Reshelved, Long, return_to_central-Reshelved}

module _ (os : Platform) (index p n : ℕ) (pages : List (ℕ × Ptr)) where
  -- The block `ptr` on top of the thread's list.
  topped : ThreadCache → Ptr → ThreadCache
  topped t ptr = set_list t index ptr (t.free_list_size index + 1)

  topped-Long :
      (t : ThreadCache) (ptr : Ptr) (xs ys : List Ptr) (w : World)
      → ptr ≢ null
      → has ptr (xs ++ ys) ≡ false
      → lookup (page_id os ptr) pages ≡ some p
      → Shelf os index p n pages t xs ys w
      → Long os index p n pages
          (topped t ptr)
          (ptr ∷ xs)
          ys
          (record w { word = update w.word ptr (t.free_list index) })
  unfolding topped
  topped-Long t ptr xs ys w some_block new at f =
      let not_own : has ptr xs ≡ false = ground (arith, has-append ptr xs ys) in
      let not_spans : has ptr ys ≡ false = ground (arith, has-append ptr xs ys) in
      record {
        own = rw (==_refl index) (push ptr f.own some_block not_own);
        own_counted = rw (==_refl index) (omega (arith, f.own_counted));
        span = f.span;
        owner =
            frame-Owner ptr (t.free_list index)
              (record w { word = update w.word ptr (t.free_list index) }) f.owner not_spans refl
              refl;
        heads = f.heads;
        apart = λ a on. elim (Bool-cases (a == ptr)) [
          | inl same ↦ subst (λ (b : Ptr). has b ys ≡ false) {x = ptr} (ground arith) not_spans
          | inr other ↦ f.apart a (ground arith)
        ];
        mapped = f.mapped;
        own_pages = λ a on. elim (Bool-cases (a == ptr)) [
          | inl same ↦
              subst (λ (b : Ptr). lookup (page_id os b) pages ≡ some p) {x = ptr} (ground arith) at
          | inr other ↦ f.own_pages a (ground arith)
        ];
        span_pages = f.span_pages;
      }

  push_block-Reshelved :
      (t : ThreadCache) (ptr : Ptr) (xs ys : List Ptr) (w : World)
      → index < 56
      → ptr ≢ null
      → has ptr (xs ++ ys) ≡ false
      → lookup (page_id os ptr) pages ≡ some p
      → suc (length xs + length ys) < n
      → Shelf os index p n pages t xs ys w
      → Returns (Reshelved os index p n pages (ptr ∷ (xs ++ ys))) (push_block os t index ptr w)
  unfolding push_block topped should_return_to_central
  push_block-Reshelved t ptr xs ys w class some_block new at part f =
      let l = topped-Long t ptr xs ys w some_block new at f in
      elim (Bool-cases (ltb (max_cached_blocks (get_size index)) (t.free_list_size index + 1))) [
        | inl over ↦
            rw (store-ok w ptr (t.free_list index) some_block, and_then, ==_refl index, over)
              (return_to_central-Reshelved os index p n pages class (topped t ptr) ptr xs ys
                (record w { word = update w.word ptr (t.free_list index) })
                (ground (arith, f.own_counted, f.bounded)) (omega arith) l)
        | inr within ↦
            rw (store-ok w ptr (t.free_list index) some_block, and_then, ==_refl index, within)
              (returns (
                ptr ∷ xs,
                (
                  ys,
                  (
                    Perm.refl (ptr ∷ (xs ++ ys)),
                    record {
                      own = l.own;
                      own_counted = l.own_counted;
                      bounded = ground (arith, f.own_counted);
                      span = l.span;
                      owner = l.owner;
                      heads = l.heads;
                      apart = l.apart;
                      mapped = l.mapped;
                      own_pages = l.own_pages;
                      span_pages = l.span_pages;
                    },
                  ),
                ),
              ))
      ]

  -- With the guards off, where the free blocks of a class that lie in one span are on two counted
  -- lists, the thread's, within its limit, and the span's, and the span heads its shard if it has
  -- any: a block of the span that is not free and not at nullptr, freed with a size of 1 to
  -- MAX_BYTES of the class, is accepted. It joins the free blocks, and no other is lost or added,
  -- whether or not part of the thread's list goes back to the span; they are on two such lists
  -- again, and the page map is as it was. The span has a block in use besides.
  pub deallocate_sized-Reshelved :
      (t : ThreadCache) (ptr size : ℕ) (xs ys : List Ptr) (w : World)
      → os.debug_guards ≡ false
      → 0 < size
      → size ≤ max_bytes
      → get_index size ≡ index
      → ptr ≢ null
      → has ptr (xs ++ ys) ≡ false
      → lookup (page_id os ptr) pages ≡ some p
      → suc (length xs + length ys) < n
      → Shelf os index p n pages t xs ys w
      → Returns
          (λ (freed, t') w'. (freed ≡ true) × Reshelved os index p n pages (ptr ∷ (xs ++ ys)) t' w')
          (deallocate_sized os t ptr size w)
  unfolding accept_block
  deallocate_sized-Reshelved t ptr size xs ys w unguarded pos le same some_block new at part f =
      let class : index < 56 =
        omega (arith, same, (get_index_least size pos le).0, free_list_size_lem) in
      rw (deallocate_sized-accept os unguarded t ptr size some_block pos le, same)
        (bind (push_block-Reshelved t ptr xs ys w class some_block new at part f)
          (λ t' w' found. returns (refl, found)))
