-- ===== src/V3/PageCache/Promise.antt =====
-- What the system promises of a mapping, and a new span on its pages.
use native.Mathlib.Nat.{
  le-div_iff_mul-le, lt-div-mul-add, one-le-pow, div-add-mod, mul-mod_right, zero-div,
}
use my_memory_pool.Prelude.{
  leb→le, Ptr, null, ℕ, zero, suc, ◌+◌, ◌-◌, ◌*◌, ◌/◌, ◌%◌, ◌^◌, ◌≤◌, ◌<◌, ◌≡◌, refl, ◌≢◌, arith,
  List, none, some, true, false, ltb, leb, ◌&&◌, ◌==◌, if◌then◌else◌, Bool-cases, ◌⊎◌, inl, inr,
  subst, sym, ap, size_max,
}
use my_memory_pool.Prelude.Assoc.{lookup, insert, lookup-insert, insert-IsSorted}
use my_memory_pool.Prelude.Check.{every, every_sound}
use my_memory_pool.Prelude.Bits.{bit_and-clear}
use my_memory_pool.V3.World.{World, Span, Platform, page_size, alloc_granularity}
use my_memory_pool.V3.PageCache.{map_pages, mapping_bytes}
use my_memory_pool.V3.PageCache.Pages.{lookup-map_pages}
use my_memory_pool.V3.PageCache.Kept.{Keeps}
use my_memory_pool.V3.PageCache.Invariant.{SpanMap, first_page, Mapped, Inv}

-- What the system promises of its next mapping: it fails, or the range begins at a page, and none
-- of its pages is in use.
pub record Promised (os : Platform) (w : World) (bytes : ℕ) : Type 0 where
  pub nonnull : os.mmap w.system_calls bytes ≢ null
  pub page_aligned :
      os.mmap w.system_calls bytes ≢ size_max → os.mmap w.system_calls bytes % page_size os ≡ 0
  pub unused :
      os.mmap w.system_calls bytes ≢ size_max
      → (i : ℕ) → i < bytes / page_size os
      → lookup (os.mmap w.system_calls bytes / page_size os + i) w.page_map ≡ none

-- Why there is no fresh memory for `n` pages: they are more than SIZE_MAX bytes, or rounding them up
-- to the granularity would overflow, or the system answers MAP_FAILED.
abbrev pub Refused : Platform → World → ℕ → Type 0
Refused os w n =
    (size_max / page_size os < n)
    ⊎ ((size_max - (alloc_granularity os - 1) < n * page_size os)
        ⊎ (os.mmap w.system_calls (mapping_bytes os n) ≡ size_max))

-- The granularity is a power of two and a multiple of the page size.
pub record Granular (os : Platform) (k : ℕ) : Type 0 where
  pub power : alloc_granularity os ≡ 2 ^ k
  pub small : k ≤ 64
  pub multiple : 2 ^ k % page_size os ≡ 0

page_pos : (os : Platform) → 0 < page_size os
unfolding page_size
page_pos os = ground arith

powers_checked : every 65 (λ k. leb (2 ^ k) (2 ^ 64)) ≡ true
unfolding every
powers_checked = refl

power_le : (k : ℕ) → k ≤ 64 → 2 ^ k ≤ 2 ^ 64
power_le k h =
    leb→le _ _ (every_sound 65 (λ k. leb (2 ^ k) (2 ^ 64)) k powers_checked (omega arith))

multiple_trans : (p g c : ℕ) → g % p ≡ 0 → c * g % p ≡ 0
multiple_trans p g c e =
    let exact : g ≡ p * (g / p) = omega (arith, div-add-mod g p) in
    let factor : c * g ≡ p * (c * (g / p)) = omega (arith, ap (λ (t : ℕ). c * t) exact) in
    rw factor (mul-mod_right p (c * (g / p)))

pub nonzero : (b p : ℕ) → 0 < b / p → (b == 0) ≡ false
nonzero zero p h = absurd (omega (arith, zero-div p))
nonzero (suc b) p h = ground arith

-- Rounding up to a multiple does not lose anything.
round_ge : (a g : ℕ) → 0 < g → a ≤ (a + g - 1) / g * g
round_ge a g pos = omega (arith, lt-div-mul-add {a = a + g - 1} pos)

-- `systemAlloc` rounds up to whole pages that hold the request.
pub mapping_bytes_lem :
    (os : Platform) (k n : ℕ)
    → Granular os k
    → n * page_size os ≤ size_max - (alloc_granularity os - 1)
    → (mapping_bytes os n % page_size os ≡ 0) × (n ≤ mapping_bytes os n / page_size os)
unfolding mapping_bytes
mapping_bytes_lem os k n g fits =
    let pos : 0 < 2 ^ k = one-le-pow k 2 (omega arith) in
    let room : n * page_size os ≤ size_max - (2 ^ k - 1) =
      subst (λ x. n * page_size os ≤ size_max - (x - 1)) g.power fits in
    let bound : n * page_size os + 2 ^ k - 1 < 2 ^ 64 = omega (arith, power_le k g.small) in
    rw (g.power, bit_and-clear k (n * page_size os + 2 ^ k - 1) g.small bound)
      (
        multiple_trans (page_size os) (2 ^ k) ((n * page_size os + 2 ^ k - 1) / 2 ^ k) g.multiple,
        (le-div_iff_mul-le (page_pos os)).1 (round_ge (n * page_size os) (2 ^ k) pos),
      )

-- What `allocateSpan` promises of a span of fresh memory.
pub record Grown (os : Platform) (n : ℕ) (w : World) (q : Ptr) (w' : World) : Type 0 where
  pub inv : Inv os w'
  pub span : Span
  pub alive : lookup q w'.spans ≡ some span
  pub pages : n ≤ span.num_pages
  pub in_use : span.in_free_list ≡ false
  pub granted : os.mmap w.system_calls (mapping_bytes os n) ≢ size_max
  pub place : span.page_addr ≡ os.mmap w.system_calls (mapping_bytes os n)
  pub whole : (span.origin_addr ≡ span.page_addr) × (span.origin_pages ≡ span.num_pages)
  pub same : w'.cached_free_pages ≡ w.cached_free_pages
  pub others : Keeps null w q w'

-- A new span on pages that led nowhere.
pub Mapped-new :
    (os : Platform) {spans : SpanMap} {next : Ptr} {pages : List (ℕ × Ptr)} (t : Span)
    → Mapped os spans next pages
    → 0 < t.num_pages
    → 0 < t.page_addr
    → t.page_addr % page_size os ≡ 0
    → ((i : ℕ) → i < t.num_pages → lookup (first_page os t + i) pages ≡ none)
    → Mapped os
        (insert next t spans)
        (next + 1)
        (map_pages t.num_pages (first_page os t) next pages)
Mapped-new os {spans} {next} {pages} t v some_pages some_place place unused = record {
  sorted = insert-IsSorted 1 next t spans v.next_pos v.sorted;
  next_pos = omega arith;
  fresh = λ q u e. ground (arith, lookup-insert next q t spans, v.fresh q u);
  nonempty = λ q u e. ground (arith, lookup-insert next q t spans, v.nonempty q u);
  above_null = λ q u e. ground (arith, lookup-insert next q t spans, v.above_null q u);
  aligned = λ q u e. ground (arith, lookup-insert next q t spans, v.aligned q u);
  registered = λ q u i e h. elim (Bool-cases (next == q)) [
    | inl new ↦
        let same : t ≡ u = ground (arith, lookup-insert next q t spans) in
        let first : first_page os u ≡ first_page os t = ap (first_page os) (sym same) in
        let size : u.num_pages ≡ t.num_pages = ap (λ (x : Span). x.num_pages) (sym same) in
        ground (arith, page_at (first_page os u + i), first, size)
    | inr old ↦
        let kept : lookup q spans ≡ some u = ground (arith, lookup-insert next q t spans) in
        ground (
          arith,
          page_at (first_page os u + i),
          v.registered q u i kept h,
          unused (first_page os u + i - first_page os t),
        )
  ];
  owned = λ j q e.
      elim (Bool-cases (leb (first_page os t) j && ltb j (first_page os t + t.num_pages))) [
        | inl inside ↦
            let new : next ≡ q = ground (arith, page_at j) in
            (t, ground (arith, lookup-insert next q t spans), ground arith, ground arith)
        | inr outside ↦
            let kept : lookup j pages ≡ some q = ground (arith, page_at j) in
            let (u, there, lo, hi) = v.owned j q kept in
            (u, ground (arith, lookup-insert next q t spans, v.fresh q u there), lo, hi)
      ];
}
  where
    page_at :
        (j : ℕ)
        → lookup j (map_pages t.num_pages (first_page os t) next pages) ≡ (
            if leb (first_page os t) j && ltb j (first_page os t + t.num_pages)
            then some next
            else lookup j pages)
    page_at j = lookup-map_pages t.num_pages (first_page os t) next j pages
