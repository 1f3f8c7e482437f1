-- ===== src/V3/PageCache/Absorb.antt =====
-- The neighbours in `deallocateSpan`, and the way back to the system.
use native.Mathlib.Nat.{add-mul-div_right}
use my_memory_pool.Prelude.{
  Ptr, null, ℕ, ◌+◌, ◌*◌, ◌/◌, ◌<◌, ◌≡◌, refl, ◌≢◌, arith, some, false, ◌==◌, Bool-cases, inl, inr,
  ap, ◌∙◌,
}
use my_memory_pool.Prelude.Assoc.{
  lookup, insert, erase, lookup-insert, lookup-erase, insert-IsSorted, key_ge, IsSorted,
}
use my_memory_pool.V3.World.{World, Span, Platform, done, page_size, free_pages}
use my_memory_pool.Prelude.Command.{Returns, returns}
use my_memory_pool.V3.World.Rules.{read_span-ok, write_span-ok, delete_span-ok}
use my_memory_pool.V3.PageCache.{
  map_pages, unmap_pages, redirect_pages, unregister_pages, release_origin, absorb_next,
  absorb_prev, remove_alloc,
}
use my_memory_pool.V3.PageCache.Invariant.{first_page, Inv}
use my_memory_pool.V3.PageCache.Split.{Mapped-write}
use my_memory_pool.V3.PageCache.Push.{write-Listed, remove-Listed}
use my_memory_pool.V3.PageCache.Kept.{Keeps}
use my_memory_pool.V3.PageCache.Merge.{Mapped-remove, Mapped-merge}

-- The invariant holds, and `p` is a span that no list holds.
pub record InUse (os : Platform) (p : Ptr) (w : World) : Type 0 where
  pub inv : Inv os w
  pub span : Span
  pub alive : lookup p w.spans ≡ some span
  pub used : span.in_free_list ≡ false

-- After the handling of `p` the span `r` is in use, and the other spans in use are as they were.
pub record Merged (os : Platform) (p : Ptr) (w : World) (r : Ptr) (w' : World) : Type 0 where
  pub now : InUse os r w'
  pub keeps : Keeps p w r w'

-- The call ends, and the other spans in use are as they were.
abbrev pub Settled : Platform → Ptr → World → World → Type 0
Settled os p w w' = Inv os w' × Keeps p w p w'

free_pages-Settled :
    (os : Platform) (p : Ptr) (w0 w : World) (ptr : Ptr) (size : ℕ)
    → Settled os p w0 w
    → Returns (λ _ w'. Settled os p w0 w') (free_pages ptr size w)
unfolding free_pages
free_pages-Settled os p w0 w ptr size (inv, keeps) = elim (Bool-cases (ptr == null)) [
  | inl nothing ↦ rw nothing (returns (inv, keeps))
  | inr there ↦ rw there (
      returns
        (record { mapped = inv.mapped; listed = inv.listed }, record { others = keeps.others }))
]

module _ (os : Platform) (w : World) (inv : Inv os w) (p : Ptr) (s : Span)
    (alive : lookup p w.spans ≡ some s) (used : s.in_free_list ≡ false) where
  pub write-Keeps : (t : Span) → Keeps p w p (record w { spans = insert p t w.spans })
  write-Keeps t = record {
    others = λ q u here in_use other. (ground (arith, lookup-insert p q t w.spans), other);
  }

  pub write_used-Inv :
      (t : Span)
      → t.page_addr ≡ s.page_addr
      → t.num_pages ≡ s.num_pages
      → t.in_free_list ≡ false
      → Inv os (record w { spans = insert p t w.spans })
  write_used-Inv t place size free = record {
    mapped = Mapped-write os p s t inv.mapped alive place size;
    listed = write-Listed inv.mapped.sorted inv.listed p s t alive used free;
  }

  -- `releaseOrigin` runs to the end.
  pub release_origin-Settled : Returns (λ _ w'. Settled os p w w') (release_origin os p w)
  unfolding release_origin unregister_pages free_pages
  release_origin-Settled =
      let pages = unmap_pages s.num_pages (s.page_addr / page_size os) w.page_map in
      let w1 : World = record w { page_map = pages } in
      let w2 : World = record w1 { system_allocs = remove_alloc s.origin_addr w.system_allocs } in
      rw (read_span-ok w p alive, read_span-ok w1 p alive, delete_span-ok w2 p alive)
        (free_pages-Settled os p w (record w2 { spans = erase p w.spans }) s.origin_addr
          (s.origin_pages * page_size os)
          (
            record {
              mapped = Mapped-remove os p s inv.mapped alive;
              listed = remove-Listed inv.mapped.sorted inv.listed p s alive used;
            },
            record {
              others = λ q t here in_use other. (ground (arith, lookup-erase p q w.spans), other);
            },
          ))

module _ (os : Platform) (w : World) (inv : Inv os w) (p q : Ptr) (s u : Span)
    (alive : lookup p w.spans ≡ some s) (used : s.in_free_list ≡ false)
    (there : lookup q w.spans ≡ some u) (taken_off : u.in_free_list ≡ false) (ne : p ≢ q)
    (adjacent : s.page_addr ≡ u.page_addr + u.num_pages * page_size os) where
  page_pos : 0 < page_size os
  unfolding page_size
  page_pos = ground arith

  next_page : first_page os s ≡ first_page os u + u.num_pages
  next_page =
      ap (λ (a : ℕ). a / page_size os) adjacent ∙ add-mul-div_right u.page_addr u.num_pages page_pos

  -- The span `u` with the pages of `s` behind its own.
  abbrev pub grown : Span
  grown = record u { num_pages = u.num_pages + s.num_pages }

  abbrev pub merged : World
  merged = record w {
    spans = erase p (insert q grown w.spans);
    page_map = map_pages s.num_pages (first_page os s) q w.page_map;
  }

  grown-IsSorted : IsSorted 1 (insert q grown w.spans)
  grown-IsSorted =
      insert-IsSorted 1 q grown w.spans (key_ge 1 q u w.spans inv.mapped.sorted there)
        inv.mapped.sorted

  p_still : lookup p (insert q grown w.spans) ≡ some s
  p_still = ground (arith, lookup-insert q p grown w.spans)

  pub merged-InUse : InUse os q merged
  merged-InUse = record {
    inv = record {
      mapped =
          Mapped-merge os p s inv.mapped alive q u grown there ne (inv.mapped.above_null q u there)
            (inv.mapped.aligned q u there) refl refl next_page;
      listed =
          remove-Listed grown-IsSorted
            (write-Listed inv.mapped.sorted inv.listed q u grown there taken_off taken_off) p s
            p_still used;
    };
    span = grown;
    alive =
        ground (arith, lookup-erase p q (insert q grown w.spans), lookup-insert q q grown w.spans);
    used = taken_off;
  }

  -- A span that is neither `p` nor `q`.
  pub merged_others :
      (r : Ptr) (t : Span)
      → lookup r w.spans ≡ some t
      → r ≢ p
      → r ≢ q
      → lookup r merged.spans ≡ some t
  merged_others r t here not_p not_q =
      ground (arith, lookup-erase p r (insert q grown w.spans), lookup-insert q r grown w.spans)

  pub absorb_next-run : absorb_next os q p w ≡ done tt merged
  unfolding absorb_next redirect_pages
  absorb_next-run =
      let w1 : World = record w { spans = insert q grown w.spans } in
      let w2 : World = record w1 {
        page_map = map_pages s.num_pages (first_page os s) q w.page_map;
      } in
      rw
        (
          read_span-ok w p alive,
          read_span-ok w q there,
          write_span-ok w q there grown,
          read_span-ok w1 p p_still,
          delete_span-ok w2 p p_still,
        )
        refl

  pub absorb_prev-run : absorb_prev os p q s.num_pages w ≡ done q merged
  unfolding absorb_prev redirect_pages
  absorb_prev-run =
      let w1 : World = record w {
        page_map = map_pages s.num_pages (first_page os s) q w.page_map;
      } in
      let w2 : World = record w1 { spans = insert q grown w.spans } in
      rw
        (
          read_span-ok w p alive,
          read_span-ok w1 q there,
          write_span-ok w1 q there grown,
          delete_span-ok w2 p p_still,
        )
        refl
