-- ===== src/V3/PageCache/Lookup.antt =====
-- `findSpan` by the address of any byte of a span.
use native.Mathlib.Nat.{mul-add-div_right, div-lt_iff_lt-mul, div-add-mod'}
use my_memory_pool.Prelude.{
  Ptr, null, ℕ, ◌+◌, ◌-◌, ◌*◌, ◌/◌, ◌%◌, ◌≤◌, ◌<◌, ◌≡◌, refl, ◌≢◌, arith, some, ne→==, ap, ◌∙◌,
}
use my_memory_pool.Prelude.Assoc.{lookup}
use my_memory_pool.V3.World.{World, Span, Platform, page_size, done}
use my_memory_pool.V3.PageCache.{find_span, find_span_locked, page_id}
use my_memory_pool.V3.PageCache.Invariant.{Inv}

page_pos : (os : Platform) → 0 < page_size os
unfolding page_size
page_pos os = ground arith

-- The page of a byte of a span, counted from the first one.
pub byte_page :
    (os : Platform) (base n a : ℕ)
    → base % page_size os ≡ 0
    → base ≤ a
    → a < base + n * page_size os
    → (a / page_size os ≡ base / page_size os + (a - base) / page_size os)
      × ((a - base) / page_size os < n)
byte_page os base n a aligned le lt =
    let start : a ≡ base / page_size os * page_size os + (a - base) =
      omega (arith, div-add-mod' base (page_size os), aligned) in
    (
      ap (λ (x : ℕ). x / page_size os) start
          ∙ mul-add-div_right (page_pos os) (base / page_size os) (a - base),
      (div-lt_iff_lt-mul (page_pos os)).1 (omega arith),
    )

-- In a page cache that keeps its invariant, `findSpan` of any address inside a live span, from its
-- first byte to its last, finds that span and changes nothing.
pub find_span-owner :
    (os : Platform) (w : World) (p : Ptr) (s : Span) (a : Ptr)
    → Inv os w
    → lookup p w.spans ≡ some s
    → s.page_addr ≤ a
    → a < s.page_addr + s.num_pages * page_size os
    → find_span os a w ≡ done p w
unfolding find_span find_span_locked page_id
find_span-owner os w p s a inv alive le lt =
    let ne : a ≢ null = omega (arith, inv.mapped.above_null p s alive, le) in
    let (page, inside) =
      byte_page os s.page_addr s.num_pages a (inv.mapped.aligned p s alive) le lt in
    rw
      (
        ne→== a null ne,
        page,
        inv.mapped.registered p s ((a - s.page_addr) / page_size os) alive inside,
      )
      refl
