-- ===== src/V3/ThreadCache/Shelf.antt =====
-- The free blocks of a class between a thread and one span.
use mathlib.Core.List.{head-eq_of_cons-eq, tail-eq_of_cons-eq}
use my_memory_pool.Prelude.{
  Ptr, update, ℕ, ◌≤◌, ◌<◌, ◌≡◌, refl, true, false, arith, some, List, [], ◌∷◌, ◌++◌, length, subst,
  sym, Bool-cases, inl, inr,
}
use my_memory_pool.Prelude.Assoc.{lookup}
use my_memory_pool.Prelude.Blocks.{Blocks, has, frame}
use my_memory_pool.Prelude.Blocks.Join.{Apart, has-append, first_fresh}
use my_memory_pool.V3.SizeClass.{get_size}
use my_memory_pool.V3.World.{World, Span, Platform}
use my_memory_pool.V3.PageCache.{page_id}
use my_memory_pool.V3.CentralCache.Owner.{Owner, frame-Owner}
use my_memory_pool.V3.ThreadCache.{ThreadCache, max_cached_blocks}

-- The free blocks of the class `index` that lie in the span `p` of `n` blocks: `xs` on the list of
-- the thread, counted and within its limit, and `ys` on the list of the span. The page map is
-- `pages`, which finds the span for each of them.
pub record Shelf (os : Platform) (index p n : ℕ) (pages : List (ℕ × Ptr)) (t : ThreadCache)
    (xs ys : List Ptr) (w : World) : Type 0 where
  pub own : Blocks w.word (t.free_list index) xs
  pub own_counted : t.free_list_size index ≡ length xs
  pub bounded : length xs ≤ max_cached_blocks (get_size index)
  pub span : Span
  pub owner : Owner index p n span ys w
  pub heads : 0 < length ys → w.partial index ≡ p
  pub apart : Apart xs ys
  pub mapped : w.page_map ≡ pages
  pub own_pages : (a : Ptr) → has a xs ≡ true → lookup (page_id os a) pages ≡ some p
  pub span_pages : (a : Ptr) → has a ys ≡ true → lookup (page_id os a) pages ≡ some p

-- `zs` in order, first those of the thread.
abbrev pub OnShelf :
    Platform → (index p n : ℕ) → List (ℕ × Ptr) → List Ptr → ThreadCache → World → Type 0
OnShelf os index p n pages zs t w =
    (xs : List Ptr) × ((ys : List Ptr) × ((xs ++ ys ≡ zs) × Shelf os index p n pages t xs ys w))

module _ (os : Platform) (index p n : ℕ) (pages : List (ℕ × Ptr)) where
  pub shelf_found :
      (free : List Ptr) (t : ThreadCache) (w : World)
      → OnShelf os index p n pages free t w
      → (a : Ptr) → has a free ≡ true
      → lookup (page_id os a) pages ≡ some p
  shelf_found free t w (xs, (ys, (e, f))) a on =
      let split : has a (xs ++ ys) ≡ true = subst (λ (l : List Ptr). has a l ≡ true) (sym e) on in
      elim (Bool-cases (has a xs)) [
        | inl own ↦ f.own_pages a own
        | inr other ↦ f.span_pages a (ground (arith, has-append a xs ys))
      ]

  -- No free block stands twice.
  pub first_once :
      (x : Ptr) (zs : List Ptr) (t : ThreadCache) (w : World) (xs ys : List Ptr)
      → xs ++ ys ≡ x ∷ zs
      → Shelf os index p n pages t xs ys w
      → has x zs ≡ false
  first_once x zs t w [] [] e f = cc
  first_once x zs t w [] (y ∷ ys) e f =
      ground (arith, head-eq_of_cons-eq e, tail-eq_of_cons-eq e, first_fresh f.owner.blocks)
  first_once x zs t w (y ∷ xs) ys e f =
      let new : has y (xs ++ ys) ≡ false =
        ground (arith, has-append y xs ys, first_fresh f.own, f.apart y) in
      subst (λ (r : Ptr). has r zs ≡ false) (head-eq_of_cons-eq e)
        (subst (λ (l : List Ptr). has y l ≡ false) (tail-eq_of_cons-eq e) new)

  -- A write outside of the free blocks changes none of the lists.
  pub write-OnShelf :
      (free : List Ptr) (t : ThreadCache) (w : World) (at word : Ptr)
      → has at free ≡ false
      → OnShelf os index p n pages free t w
      → OnShelf os index p n pages free t (record w { word = update w.word at word })
  write-OnShelf free t w at word off (xs, (ys, (e, f))) =
      let outside : has at (xs ++ ys) ≡ false =
        subst (λ (l : List Ptr). has at l ≡ false) (sym e) off in
      let not_own : has at xs ≡ false = ground (arith, has-append at xs ys) in
      let not_spans : has at ys ≡ false = ground (arith, has-append at xs ys) in
      (
        xs,
        (
          ys,
          (
            e,
            record {
              own = frame at word f.own not_own;
              own_counted = f.own_counted;
              bounded = f.bounded;
              span = f.span;
              owner =
                  frame-Owner at word (record w { word = update w.word at word }) f.owner not_spans
                    refl refl;
              heads = f.heads;
              apart = f.apart;
              mapped = f.mapped;
              own_pages = f.own_pages;
              span_pages = f.span_pages;
            },
          ),
        ),
      )
