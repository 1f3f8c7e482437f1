-- ===== src/V3/PageCache/Serve.antt =====
-- `allocateSpan` as its callers see it, whether the span comes from a list or from the system.
use my_memory_pool.Prelude.{
  Ptr, null, ℕ, ◌≤◌, ◌<◌, ◌≡◌, ◌≢◌, ◌⊎◌, arith, some, false, ◌==◌, if◌then◌else◌, Option-cases, inl,
  inr, subst,
}
use my_memory_pool.Prelude.Assoc.{lookup, key_ge, lower_bound}
use my_memory_pool.Prelude.Command.{Returns, weaken}
use my_memory_pool.V3.World.{World, Span, Platform}
use my_memory_pool.V3.PageCache.{allocate_span, mapping_bytes}
use my_memory_pool.V3.PageCache.Invariant.{Inv}
use my_memory_pool.V3.PageCache.Kept.{Keeps}
use my_memory_pool.V3.PageCache.Promise.{Promised, Granular, Grown, Refused}
use my_memory_pool.V3.PageCache.Mapping.{allocate_span-NullOrGrown}
use my_memory_pool.V3.PageCache.Reuse.{Handed, allocate_span-Handed}

-- A live span of at least `n` pages that is on no list.
pub record Served (os : Platform) (n : ℕ) (q : Ptr) (w : World) : Type 0 where
  pub nonnull : q ≢ null
  pub span : Span
  pub alive : lookup q w.spans ≡ some span
  pub pages : n ≤ span.num_pages
  pub in_use : span.in_free_list ≡ false

-- What a caller gets; every other span in use is as it was.
abbrev pub Answered : Platform → ℕ → World → Ptr → World → Type 0
Answered os n w q w' = Inv os w' × (((q ≡ null) ⊎ Served os n q w') × Keeps null w q w')

module _ (os : Platform) (w : World) (n : ℕ) where
  from_system :
      (q : Ptr) (w' : World)
      → ((q ≡ null) × Refused os w n × Inv os w' × (w'.spans ≡ w.spans)) ⊎ Grown os n w q w'
      → Answered os n w q w'
  from_system q w' (inl (e, refused, inv, same)) =
      (inv, (inl e, record { others = λ a t here used some_a. (ground arith, ground arith) }))
  from_system q w' (inr g) = (
    g.inv,
    (
      inr (record {
        nonnull = ground (arith, key_ge 1 q g.span w'.spans g.inv.mapped.sorted g.alive);
        span = g.span;
        alive = g.alive;
        pages = g.pages;
        in_use = g.in_use;
      }),
      g.others,
    ),
  )

  from_list : (p q : Ptr) (w' : World) → (q ≡ p) × Handed os n w q w' → Answered os n w q w'
  from_list p q w' (e, g) = (
    g.inv,
    (
      inr (record {
        nonnull = ground (arith, key_ge 1 q g.span w'.spans g.inv.mapped.sorted g.alive);
        span = g.span;
        alive = g.alive;
        pages = omega (arith, g.pages);
        in_use = g.in_use;
      }),
      g.others,
    ),
  )

module _ (os : Platform) (w : World) (k : ℕ) (inv : Inv os w) (gran : Granular os k) where
  pub allocate_span-Answered :
      (requested : ℕ)
      → Promised os w (mapping_bytes os (if requested == 0 then 1 else requested))
      → Returns
          (Answered os (if requested == 0 then 1 else requested) w)
          (allocate_span os requested w)
  allocate_span-Answered requested promised =
      let n : ℕ = if requested == 0 then 1 else requested in
      elim (Option-cases (lower_bound n w.free_spans)) [
        | inl nothing ↦
            weaken (allocate_span-NullOrGrown os w requested k inv gran promised nothing)
              (from_system os w n)
        | inr ((j, p), found) ↦
            weaken (allocate_span-Handed os w requested j p inv found) (from_list os w n p)
      ]

  -- A request for some page.
  pub allocate_span-Served :
      (n : ℕ)
      → 0 < n
      → Promised os w (mapping_bytes os n)
      → Returns (Answered os n w) (allocate_span os n w)
  allocate_span-Served n pos promised =
      let same : (if n == 0 then 1 else n) ≡ n = ground arith in
      subst
        (λ m. Promised os w (mapping_bytes os m) → Returns (Answered os m w) (allocate_span os n w))
        same (λ pr. allocate_span-Answered n pr) promised
