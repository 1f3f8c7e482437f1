-- ===== src/V3/Tests/PageCache.antt =====
-- The page cache with one free span of four pages, and with the two halves of such a span.
use my_memory_pool.Prelude.{
  Ptr, none, ℕ, ◌⊎◌, ◌==◌, inr, inl, Bool-cases, ◌≡◌, refl, arith, subst, [], ◌∷◌, true,
}
use my_memory_pool.Prelude.Assoc.{lookup, lower_bound}
use my_memory_pool.V3.Sample.{linux}
use my_memory_pool.V3.World.{
  alloc_granularity, World, Span, default_span, empty_world, page_size, done,
}
use my_memory_pool.Prelude.Command.{Returns}
use my_memory_pool.V3.PageCache.{allocate_span, deallocate_span, find_span}
use my_memory_pool.V3.PageCache.Destroy.{destroy, destroy_releases}
use my_memory_pool.V3.PageCache.Deallocate.{deallocate_span-Inv}
use my_memory_pool.V3.PageCache.Invariant.{Inv, Chain, end, link, total_free}
use my_memory_pool.V3.PageCache.Lookup.{find_span-owner}
use my_memory_pool.V3.PageCache.Promise.{Granular, Promised, Grown, Refused}
use my_memory_pool.V3.PageCache.Mapping.{allocate_span-NullOrGrown}
use my_memory_pool.V3.PageCache.Initial.{empty_world-Inv}
use my_memory_pool.V3.PageCache.Kept.{Keeps}
use my_memory_pool.V3.PageCache.Reuse.{Handed, allocate_span-Handed}

abbrev free_span : Span
free_span = record default_span {
  page_addr = 8192;
  num_pages = 4;
  origin_addr = 8192;
  origin_pages = 4;
  in_free_list = true;
}

abbrev one_span : World
one_span = record empty_world {
  spans = (1, free_span) ∷ [];
  next_span = 2;
  free_spans = (4, 1) ∷ [];
  page_map = (2, 1) ∷ (3, 1) ∷ (4, 1) ∷ (5, 1) ∷ [];
  cached_free_pages = 4;
}

listed : Chain ((1, free_span) ∷ []) 4 1 (1 ∷ [])
unfolding lookup
listed = link {s = free_span} refl refl refl refl refl end

one_span-Inv : Inv linux one_span
unfolding lookup page_size total_free
one_span-Inv = record {
  mapped = record {
    sorted = (omega arith, tt);
    next_pos = omega arith;
    fresh = λ p s e. ground arith;
    nonempty = λ p s e. ground arith;
    above_null = λ p s e. ground arith;
    aligned = λ p s e. ground arith;
    registered = λ p s i e lt. ground arith;
    owned = λ j p e. (free_span, ground arith, ground arith, ground arith);
  };
  listed = record {
    keys = (omega arith, tt);
    lists = λ k p e.
        let key : 4 ≡ k = ground arith in
        let head : 1 ≡ p = ground arith in
        (
          ground arith,
          (
            1 ∷ [],
            subst (λ i. Chain ((1, free_span) ∷ []) i p (1 ∷ [])) key
                (subst (λ a. Chain ((1, free_span) ∷ []) 4 a (1 ∷ [])) head listed),
          ),
        );
    counted = refl;
  };
}

allocate_span-Handed_example :
    Returns (λ q w'. (q ≡ 1) × Handed linux 3 one_span q w') (allocate_span linux 3 one_span)
unfolding lower_bound
allocate_span-Handed_example = allocate_span-Handed linux one_span 3 4 1 one_span-Inv refl

find_span-owner_example : find_span linux 20000 one_span ≡ done 1 one_span
unfolding lookup page_size
find_span-owner_example =
    find_span-owner linux one_span 1 free_span 20000 one_span-Inv refl (omega arith) (omega arith)

abbrev used_half : Span
used_half = record default_span {
  page_addr = 8192;
  num_pages = 2;
  origin_addr = 8192;
  origin_pages = 4;
}

abbrev free_half : Span
free_half = record default_span {
  page_addr = 16384;
  num_pages = 2;
  origin_addr = 8192;
  origin_pages = 4;
  in_free_list = true;
}

abbrev halves : World
halves = record empty_world {
  spans = (1, used_half) ∷ (2, free_half) ∷ [];
  next_span = 3;
  free_spans = (2, 2) ∷ [];
  page_map = (2, 1) ∷ (3, 1) ∷ (4, 2) ∷ (5, 2) ∷ [];
  cached_free_pages = 2;
}

free_half-listed : Chain halves.spans 2 2 (2 ∷ [])
unfolding lookup
free_half-listed = link {s = free_half} refl refl refl refl refl end

halves-Inv : Inv linux halves
unfolding lookup page_size total_free
halves-Inv = record {
  mapped = record {
    sorted = (omega arith, (omega arith, tt));
    next_pos = omega arith;
    fresh = λ p s e. ground arith;
    nonempty = λ p s e. ground arith;
    above_null = λ p s e. ground arith;
    aligned = λ p s e. ground arith;
    registered = λ p s i e lt. ground arith;
    owned = λ j p e. elim (Bool-cases (p == 1)) [
      | inl first ↦ (used_half, ground arith, ground arith, ground arith)
      | inr second ↦ (free_half, ground arith, ground arith, ground arith)
    ];
  };
  listed = record {
    keys = (omega arith, tt);
    lists = λ k p e.
        let key : 2 ≡ k = ground arith in
        let head : 2 ≡ p = ground arith in
        (
          ground arith,
          (
            2 ∷ [],
            subst (λ i. Chain halves.spans i p (2 ∷ [])) key
                (subst (λ a. Chain halves.spans 2 a (2 ∷ [])) head free_half-listed),
          ),
        );
    counted = refl;
  };
}

deallocate_span-Inv_example :
    Returns (λ _ w'. Inv linux w' × Keeps 1 halves 1 w') (deallocate_span linux 1 halves)
unfolding lookup
deallocate_span-Inv_example = deallocate_span-Inv linux halves 1 used_half halves-Inv refl refl

pub linux-Granular : Granular linux 12
unfolding alloc_granularity page_size
linux-Granular = record { power = refl; small = omega arith; multiple = refl }

pub linux-Promised : (bytes : ℕ) → Promised linux empty_world bytes
unfolding lookup page_size
linux-Promised bytes = record {
  nonnull = ground arith;
  page_aligned = λ ok. refl;
  unused = λ ok i h. refl;
}

allocate_span-NullOrGrown_example :
    Returns
      (λ q w'.
        ((q ≡ 0) × Refused linux empty_world 3 × Inv linux w' × (w'.spans ≡ empty_world.spans))
        ⊎ Grown linux 3 empty_world q w')
      (allocate_span linux 3 empty_world)
unfolding lower_bound
allocate_span-NullOrGrown_example =
    allocate_span-NullOrGrown linux empty_world 3 12 (empty_world-Inv linux) linux-Granular
      (linux-Promised _) refl

abbrev mapped_span : World
mapped_span = record one_span { system_allocs = (8192, 16384) ∷ [] }

destroy_releases_example :
    Returns
      (λ _ w'.
        (w'.unmapped ≡ (8192, 16384) ∷ [])
        × (((p : Ptr) → lookup p w'.spans ≡ none)
            × ((w'.page_map ≡ []) × ((w'.free_spans ≡ []) × (w'.system_allocs ≡ [])))))
      (destroy mapped_span)
destroy_releases_example =
    destroy_releases linux mapped_span
      (record { mapped = one_span-Inv.mapped; listed = one_span-Inv.listed })
      (omega arith, (omega arith, (omega arith, (omega arith, tt)))) (ground arith, tt)
