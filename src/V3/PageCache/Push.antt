-- ===== src/V3/PageCache/Push.antt =====
-- A new free span comes to the head of its list, and spans in use are written.
use my_memory_pool.Prelude.{
  Ptr, null, ℕ, suc, ◌+◌, ◌≤◌, ◌≡◌, refl, ◌≢◌, arith, List, [], ◌∷◌, some, true, false, ◌==◌,
  Bool-cases, Option-cases, inl, inr, subst, ap,
}
use my_memory_pool.Prelude.Assoc.{erase, lookup, insert, IsSorted, lookup-insert, insert-IsSorted}
use my_memory_pool.Prelude.Blocks.{has}
use my_memory_pool.V3.World.{Span}
use my_memory_pool.V3.PageCache.{or_null}
use my_memory_pool.V3.PageCache.Invariant.{
  free_pages_at, frame-erase, total_free-erase, not_listed, SpanMap, Listed, Chain, end, link,
  frame, not_listed, total_free-insert,
}
use my_memory_pool.V3.PageCache.Runs.{lookup-insert_self, listed_first}

module _ {spans : SpanMap} {free_spans : List (ℕ × Ptr)} {cached : ℕ} (sorted : IsSorted 1 spans)
    (l : Listed spans free_spans cached) where
  -- A free span that was on no list comes to the head of the list for its size.
  pub push-Listed :
      (r : Ptr) (t : Span)
      → 1 ≤ r
      → ((k : ℕ) (q : Ptr) (xs : List Ptr) → Chain spans k q xs → has r xs ≡ false)
      → free_pages_at (lookup r spans) ≡ 0
      → t.in_free_list ≡ true
      → Listed
          (insert r (listed_first t free_spans) spans)
          (insert t.num_pages r free_spans)
          (cached + t.num_pages)
  push-Listed r t pos unlisted no_pages free = record {
    keys = insert-IsSorted 0 t.num_pages r free_spans (omega arith) l.keys;
    lists = λ j q e. lists j q e;
    counted =
        ground (arith, total_free-insert 1 r (listed_first t free_spans) spans sorted, l.counted);
  }
    where
      new : Span
      new = listed_first t free_spans

      on_top : (xs : List Ptr) × Chain (insert r new spans) t.num_pages r xs
      on_top = elim (Option-cases (lookup t.num_pages free_spans)) [
        | inl no_list ↦ (
          r ∷ [],
          link {s = new} (lookup-insert_self r new spans) refl free (ap or_null no_list) refl end,
        )
        | inr (h, listed) ↦
            let (_, (xs, chain)) = l.lists t.num_pages h listed in
            let out : has r xs ≡ false = unlisted t.num_pages h xs chain in
            (
              r ∷ xs,
              link {s = new} (lookup-insert_self r new spans) refl free (ap or_null listed) out
                  (frame r new chain out),
            )
      ]

      lists :
          (j : ℕ) (q : Ptr)
          → lookup j (insert t.num_pages r free_spans) ≡ some q
          → (q ≢ null) × ((xs : List Ptr) × Chain (insert r new spans) j q xs)
      lists j q e = elim (Bool-cases (t.num_pages == j)) [
        | inl here ↦
            let size : t.num_pages ≡ j = ground arith in
            let head : r ≡ q = ground (arith, lookup-insert t.num_pages j r free_spans) in
            (
              ground arith,
              subst (λ a. (xs : List Ptr) × Chain (insert r new spans) j a xs) head
                  (subst (λ i. (xs : List Ptr) × Chain (insert r new spans) i r xs) size on_top),
            )
        | inr there ↦
            let kept : lookup j free_spans ≡ some q =
              ground (arith, lookup-insert t.num_pages j r free_spans) in
            let (ne, (xs, chain)) = l.lists j q kept in
            (ne, (xs, frame r new chain (unlisted j q xs chain)))
      ]

  -- A span that is not free goes.
  pub remove-Listed :
      (p : Ptr) (s : Span)
      → lookup p spans ≡ some s
      → s.in_free_list ≡ false
      → Listed (erase p spans) free_spans cached
  remove-Listed p s alive used = record {
    keys = l.keys;
    lists = λ j q e.
        let (ne, (xs, chain)) = l.lists j q e in
        (ne, (xs, frame-erase p chain (not_listed p s chain alive (λ _. used))));
    counted = ground (arith, total_free-erase 1 p spans sorted, l.counted);
  }

  -- A change of a span that is not free.
  pub write-Listed :
      (p : Ptr) (s t : Span)
      → lookup p spans ≡ some s
      → s.in_free_list ≡ false
      → t.in_free_list ≡ false
      → Listed (insert p t spans) free_spans cached
  write-Listed p s t alive used free = record {
    keys = l.keys;
    lists = λ j q e.
        let (ne, (xs, chain)) = l.lists j q e in
        (ne, (xs, frame p t chain (not_listed p s chain alive (λ _. used))));
    counted = ground (arith, total_free-insert 1 p t spans sorted, l.counted);
  }

pub insert-insert :
    (lo k : ℕ) (a b : Span) (m : SpanMap) → IsSorted lo m → insert k a (insert k b m) ≡ insert k a m
unfolding insert
insert-insert lo k a b [] s = ground arith
insert-insert lo k a b ((j, u) ∷ m) s = ground (arith, insert-insert (suc j) k a b m s.1)
