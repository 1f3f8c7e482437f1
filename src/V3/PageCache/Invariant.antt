-- ===== src/V3/PageCache/Invariant.antt =====
-- What holds of the page cache between two calls.
use my_memory_pool.Prelude.{
  ◌≤◌, Ptr, null, ℕ, suc, ◌+◌, ◌/◌, ◌%◌, ◌<◌, ◌≡◌, refl, ◌≢◌, arith, List, [], ◌∷◌, Option, none,
  some, true, false, if◌then◌else◌,
}
use my_memory_pool.Prelude.Assoc.{
  lookup, insert, erase, IsSorted, lookup-insert, lookup-erase, lookup_below,
}
use my_memory_pool.Prelude.Blocks.{has}
use my_memory_pool.V3.World.{World, Span, Platform, page_size}

-- The pages of a free span.
abbrev pub free_pages_of : Span → ℕ
free_pages_of s = if s.in_free_list then s.num_pages else 0

abbrev pub free_pages_at : Option Span → ℕ
free_pages_at none = 0
free_pages_at (some s) = free_pages_of s

-- The pages of all free spans.
unfoldable pub total_free : List (Ptr × Span) → ℕ
total_free [] = 0
total_free ((_, s) ∷ m) = free_pages_of s + total_free m

pub total_free-insert :
    (lo k : ℕ) (v : Span) (m : List (Ptr × Span))
    → IsSorted lo m
    → total_free (insert k v m) + free_pages_at (lookup k m) ≡ total_free m + free_pages_of v
unfolding total_free insert lookup
total_free-insert lo k v [] s = omega arith
total_free-insert lo k v ((j, u) ∷ m) s =
    ground (arith, total_free-insert (suc j) k v m s.1, lookup_below (suc j) k m s.1)

erase_absent : (k : ℕ) (m : List (Ptr × Span)) → lookup k m ≡ none → erase k m ≡ m
unfolding erase lookup
erase_absent k [] e = refl
erase_absent k ((j, u) ∷ m) e = ground (arith, erase_absent k m)

pub total_free-erase :
    (lo k : ℕ) (m : List (Ptr × Span))
    → IsSorted lo m
    → total_free (erase k m) + free_pages_at (lookup k m) ≡ total_free m
unfolding total_free erase lookup
total_free-erase lo k [] s = omega arith
total_free-erase lo k ((j, u) ∷ m) s =
    ground (arith, total_free-erase (suc j) k m s.1, lookup_below (suc j) k m s.1, erase_absent k m)

-- From `p` the `next` pointers lead through the distinct free spans `xs` of `k` pages.
pub data Chain (m : List (Ptr × Span)) (k : ℕ) : Ptr → List Ptr → Type 0 where
  end : Chain m k null []
  link :
      {p q : Ptr} {s : Span} {xs : List Ptr}
      → lookup p m ≡ some s
      → s.num_pages ≡ k
      → s.in_free_list ≡ true
      → s.next ≡ q
      → has p xs ≡ false
      → Chain m k q xs
      → Chain m k p (p ∷ xs)

-- A change of a span that is not on the list.
pub frame :
    {m : List (Ptr × Span)} {k : ℕ} {p : Ptr} {xs : List Ptr} (a : Ptr) (t : Span)
    → Chain m k p xs
    → has a xs ≡ false
    → Chain (insert a t m) k p xs
frame a t end out = end
frame {m} a t (link {p} {s} alive size free next fresh rest) out =
    link {s = s} (ground (arith, lookup-insert a p t m)) size free next fresh
      (frame a t rest (ground arith))

pub frame-erase :
    {m : List (Ptr × Span)} {k : ℕ} {p : Ptr} {xs : List Ptr} (a : Ptr)
    → Chain m k p xs
    → has a xs ≡ false
    → Chain (erase a m) k p xs
frame-erase a end out = end
frame-erase {m} a (link {p} {s} alive size free next fresh rest) out =
    link {s = s} (ground (arith, lookup-erase a p m)) size free next fresh
      (frame-erase a rest (ground arith))

-- A span with another page count, or one that is not free, is on no list of `k` pages.
pub not_listed :
    {m : List (Ptr × Span)} {k : ℕ} {p : Ptr} {xs : List Ptr} (a : Ptr) (t : Span)
    → Chain m k p xs
    → lookup a m ≡ some t
    → (t.num_pages ≡ k → t.in_free_list ≡ false)
    → has a xs ≡ false
not_listed a t end alive why = refl
not_listed a t (link {p} {s} here size free next fresh rest) alive why =
    ground (arith, not_listed a t rest alive why)

pub not_listed_absent :
    {m : List (Ptr × Span)} {k : ℕ} {p : Ptr} {xs : List Ptr} (a : Ptr)
    → Chain m k p xs
    → lookup a m ≡ none
    → has a xs ≡ false
not_listed_absent a end absent = refl
not_listed_absent a (link {p} {s} here size free next fresh rest) absent =
    ground (arith, not_listed_absent a rest absent)

-- The number of the first page of a span.
abbrev pub first_page : Platform → Span → ℕ
first_page os s = s.page_addr / page_size os

abbrev pub SpanMap : Type 0
SpanMap = List (Ptr × Span)

-- Spans begin at a page above nullptr and are not empty, and the page map leads from exactly the pages of a span
-- to it: so no two spans share a page, and no page leads to a deleted span.
pub record Mapped (os : Platform) (spans : SpanMap) (next_span : Ptr) (page_map : List (ℕ × Ptr))
    : Type 0 where
  pub sorted : IsSorted 1 spans
  pub next_pos : 0 < next_span
  pub fresh : (p : Ptr) (s : Span) → lookup p spans ≡ some s → p < next_span
  pub nonempty : (p : Ptr) (s : Span) → lookup p spans ≡ some s → 0 < s.num_pages
  pub above_null : (p : Ptr) (s : Span) → lookup p spans ≡ some s → 0 < s.page_addr
  pub aligned : (p : Ptr) (s : Span) → lookup p spans ≡ some s → s.page_addr % page_size os ≡ 0
  pub registered :
      (p : Ptr) (s : Span) (i : ℕ)
      → lookup p spans ≡ some s
      → i < s.num_pages
      → lookup (first_page os s + i) page_map ≡ some p
  pub owned :
      (j : ℕ) (p : Ptr)
      → lookup j page_map ≡ some p
      → (s : Span) × (lookup p spans ≡ some s)
        × (first_page os s ≤ j)
        × (j < first_page os s + s.num_pages)

-- Each list of `freeSpans_` holds free spans of its size, and `cachedFreePages_` counts the pages
-- of all free spans.
pub record Listed (spans : SpanMap) (free_spans : List (ℕ × Ptr)) (cached : ℕ) : Type 0 where
  pub keys : IsSorted 0 free_spans
  pub lists :
      (k : ℕ) (p : Ptr)
      → lookup k free_spans ≡ some p
      → (p ≢ null) × ((xs : List Ptr) × Chain spans k p xs)
  pub counted : cached ≡ total_free spans

pub record Inv (os : Platform) (w : World) : Type 0 where
  pub mapped : Mapped os w.spans w.next_span w.page_map
  pub listed : Listed w.spans w.free_spans w.cached_free_pages
