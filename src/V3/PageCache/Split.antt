-- ===== src/V3/PageCache/Split.antt =====
-- `allocateSpan` cuts a free span in two: the invariant holds of the parts.
use native.Mathlib.Nat.{add-mul-div_right, add-mul-mod_self_right}
use my_memory_pool.Prelude.{
  false, Ptr, ℕ, ◌+◌, ◌-◌, ◌*◌, ◌/◌, ◌%◌, ◌≤◌, ◌<◌, ◌≡◌, arith, List, some, ltb, leb, ◌&&◌, ◌==◌,
  if◌then◌else◌, Bool-cases, inl, inr, ap, ◌∙◌,
}
use my_memory_pool.Prelude.Assoc.{lookup, insert, lookup-insert, insert-IsSorted, key_ge}
use my_memory_pool.V3.World.{Span, Platform, page_size}
use my_memory_pool.V3.PageCache.{map_pages}
use my_memory_pool.V3.PageCache.Pages.{lookup-map_pages}
use my_memory_pool.V3.PageCache.Invariant.{SpanMap, first_page, Mapped}

-- A span that keeps its pages.
pub Mapped-write :
    (os : Platform) {spans : SpanMap} {next : Ptr} {pages : List (ℕ × Ptr)} (p : Ptr) (s t : Span)
    → Mapped os spans next pages
    → lookup p spans ≡ some s
    → t.page_addr ≡ s.page_addr
    → t.num_pages ≡ s.num_pages
    → Mapped os (insert p t spans) next pages
Mapped-write os {spans} {next} {pages} p s t v alive place size = record {
  sorted = insert-IsSorted 1 p t spans (key_ge 1 p s spans v.sorted alive) v.sorted;
  next_pos = v.next_pos;
  fresh = λ q u e. ground (arith, lookup-insert p q t spans, v.fresh q u, v.fresh p s alive);
  nonempty = λ q u e. ground (arith, lookup-insert p q t spans, v.nonempty q u, v.nonempty p s);
  above_null =
      λ q u e. ground (arith, lookup-insert p q t spans, v.above_null q u, v.above_null p s alive);
  aligned = λ q u e. ground (arith, lookup-insert p q t spans, v.aligned q u, v.aligned p s alive);
  registered = λ q u i e lt.
      ground (arith, lookup-insert p q t spans, v.registered q u i, v.registered p s i alive);
  owned = λ j q e.
      let (u, there, lo, hi) = v.owned j q e in
      elim (Bool-cases (p == q)) [
        | inl mine ↦ (t, ground (arith, lookup-insert p q t spans), ground arith, ground arith)
        | inr other ↦ (u, ground (arith, lookup-insert p q t spans), lo, hi)
      ];
}

-- The pages of a mapped span are no other span's.
pub own_pages :
    (os : Platform) {spans : SpanMap} {next : Ptr} {pages : List (ℕ × Ptr)} (p q : Ptr) (s u : Span)
    (i j : ℕ)
    → Mapped os spans next pages
    → lookup p spans ≡ some s
    → lookup q spans ≡ some u
    → i < s.num_pages
    → j < u.num_pages
    → first_page os s + i ≡ first_page os u + j
    → p ≡ q
own_pages os {spans} {next} {pages} p q s u i j v ep eq' lti ltj e =
    ground (arith, v.registered p s i ep lti, v.registered q u j eq' ltj)

module _ (os : Platform) {spans : SpanMap} {next : Ptr} {pages : List (ℕ × Ptr)} (p : Ptr)
    (s : Span) (n : ℕ) (v : Mapped os spans next pages) (alive : lookup p spans ≡ some s)
    (some_pages : 0 < n) (lt : n < s.num_pages) where
  page_pos : 0 < page_size os
  unfolding page_size
  page_pos = ground arith

  pub rest_first : (s.page_addr + n * page_size os) / page_size os ≡ first_page os s + n
  rest_first = add-mul-div_right s.page_addr n page_pos

  rest_aligned : (s.page_addr + n * page_size os) % page_size os ≡ 0
  rest_aligned = add-mul-mod_self_right s.page_addr n (page_size os) ∙ v.aligned p s alive

  -- The first `n` pages stay with `p`, and the others go to the new span `next`.
  pub Mapped-split :
      (small rest : Span)
      → small.page_addr ≡ s.page_addr
      → small.num_pages ≡ n
      → rest.page_addr ≡ s.page_addr + n * page_size os
      → rest.num_pages ≡ s.num_pages - n
      → Mapped os (insert p small (insert next rest spans)) (next + 1) (
          map_pages n
            (first_page os s)
            p
            (map_pages (s.num_pages - n) (first_page os s + n) next pages))
  Mapped-split small rest ea en ra rn = record {
    sorted =
        insert-IsSorted 1 p small (insert next rest spans) (key_ge 1 p s spans v.sorted alive)
          (insert-IsSorted 1 next rest spans v.next_pos v.sorted);
    next_pos = omega arith;
    fresh = λ q u e. ground (arith, at q, v.fresh q u, v.fresh p s alive);
    nonempty = λ q u e. ground (arith, at q, v.nonempty q u);
    above_null = λ q u e. ground (arith, at q, v.above_null q u, v.above_null p s alive);
    aligned = λ q u e. ground (arith, at q, v.aligned q u, v.aligned p s alive, rest_aligned);
    registered = λ q u i e h. registered q u i e h;
    owned = λ j q e. owned j q e;
  }
    where
      at :
          (q : Ptr)
          → lookup q (insert p small (insert next rest spans))
            ≡ (if p == q then some small else if next == q then some rest else lookup q spans)
      at q =
          ground (
            arith,
            lookup-insert p q small (insert next rest spans),
            lookup-insert next q rest spans,
          )

      page_at :
          (j : ℕ)
          → lookup j (
              map_pages n
                (first_page os s)
                p
                (map_pages (s.num_pages - n) (first_page os s + n) next pages))
            ≡ (if leb (first_page os s) j && ltb j (first_page os s + n)
                then some p
                else if leb (first_page os s + n) j
                    && ltb j (first_page os s + n + (s.num_pages - n))
                then some next
                else lookup j pages)
      page_at j = ground (
        arith,
        lookup-map_pages n (first_page os s) p j
            (map_pages (s.num_pages - n) (first_page os s + n) next pages),
        lookup-map_pages (s.num_pages - n) (first_page os s + n) next j pages,
      )

      registered :
          (q : Ptr) (u : Span) (i : ℕ)
          → lookup q (insert p small (insert next rest spans)) ≡ some u
          → i < u.num_pages
          → lookup (first_page os u + i) (
              map_pages n
                (first_page os s)
                p
                (map_pages (s.num_pages - n) (first_page os s + n) next pages))
            ≡ some q
      registered q u i e h = elim (Bool-cases (p == q)) [
        | inl mine ↦
            let first : first_page os u ≡ first_page os s =
              ap (λ (a : ℕ). a / page_size os) (ground (arith, at q)) in
            ground (arith, at q, page_at (first_page os u + i), first)
        | inr other ↦ elim (Bool-cases (next == q)) [
          | inl new ↦
              let first : first_page os u ≡ first_page os s + n =
                ap (λ (a : ℕ). a / page_size os) (ground (arith, at q)) ∙ rest_first in
              ground (arith, at q, page_at (first_page os u + i), first)
          | inr old ↦
              let kept : lookup q spans ≡ some u = ground (arith, at q) in
              ground (
                arith,
                page_at (first_page os u + i),
                v.registered q u i kept h,
                own_pages os p q s u (first_page os u + i - first_page os s) i v alive kept,
              )
        ]
      ]

      small_first : first_page os small ≡ first_page os s
      small_first = ap (λ (a : ℕ). a / page_size os) ea

      rest_page : first_page os rest ≡ first_page os s + n
      rest_page = ap (λ (a : ℕ). a / page_size os) ra ∙ rest_first

      owned :
          (j : ℕ) (q : Ptr)
          → lookup j (
              map_pages n
                (first_page os s)
                p
                (map_pages (s.num_pages - n) (first_page os s + n) next pages))
            ≡ some q
          → (u : Span) × (lookup q (insert p small (insert next rest spans)) ≡ some u)
            × (first_page os u ≤ j)
            × (j < first_page os u + u.num_pages)
      owned j q e = elim (Bool-cases (leb (first_page os s) j && ltb j (first_page os s + n))) [
        | inl front ↦
            let mine : p ≡ q = ground (arith, page_at j) in
            (small, ground (arith, at q), ground (arith, small_first), ground (arith, small_first))
        | inr behind ↦
            elim (Bool-cases
              (leb (first_page os s + n) j && ltb j (first_page os s + n + (s.num_pages - n)))) [
                | inl back ↦
                    let new : next ≡ q = ground (arith, page_at j) in
                    (
                      rest,
                      ground (arith, at q, v.fresh p s alive),
                      ground (arith, rest_page),
                      ground (arith, rest_page),
                    )
                | inr outside ↦
                    let kept : lookup j pages ≡ some q = ground (arith, page_at j) in
                    let (u, there, lo, hi) = v.owned j q kept in
                    let not_p : (p == q) ≡ false = ground (arith, alive) in
                    (u, ground (arith, at q, v.fresh q u there), lo, hi)
              ]
      ]
