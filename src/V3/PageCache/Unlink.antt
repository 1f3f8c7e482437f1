-- ===== src/V3/PageCache/Unlink.antt =====
-- A free span taken off the list that it heads, as in `allocateSpan` and `removeFromFreeList`.
use my_memory_pool.Prelude.{
  Ptr, null, ℕ, ◌≤◌, ◌≡◌, refl, ◌≢◌, arith, List, none, some, true, false, ◌==◌, if◌then◌else◌,
  Bool-cases, inl, inr, sub64, subst, sym,
}
use my_memory_pool.Prelude.Assoc.{
  lookup, insert, erase, IsSorted, lookup-insert, lookup-erase, insert-IsSorted, erase-IsSorted,
}
use my_memory_pool.Prelude.Blocks.{has}
use my_memory_pool.V3.World.{Span}
use my_memory_pool.V3.PageCache.Invariant.{
  SpanMap, Listed, Chain, end, link, frame, not_listed, total_free, total_free-insert,
}

abbrev pub taken : Span → Span
taken s = record s { next = null; in_free_list = false }

-- The list of `k` pages without its head.
abbrev pub popped : ℕ → Ptr → List (ℕ × Ptr) → List (ℕ × Ptr)
popped k next free_spans = if next == null then erase k free_spans else insert k next free_spans

-- What the head of a list is.
pub record Head (spans : SpanMap) (k : ℕ) (p : Ptr) (s : Span) (xs : List Ptr) : Type 0 where
  pub alive : lookup p spans ≡ some s
  pub size : s.num_pages ≡ k
  pub free : s.in_free_list ≡ true
  pub rest : Chain spans k s.next xs
  pub once : has p xs ≡ false

Chain-Head :
    {spans : SpanMap} {k : ℕ} {p : Ptr} {xs : List Ptr}
    → Chain spans k p xs
    → p ≢ null
    → (s : Span) × (ys : List Ptr) × Head spans k p s ys
Chain-Head end ne = absurd (ne refl)
Chain-Head {spans} {k} (link {p} {q} {s} {xs} alive size free next fresh rest) ne = (
  s,
  xs,
  record {
    alive = alive;
    size = size;
    free = free;
    rest = subst (λ r. Chain spans k r xs) (sym next) rest;
    once = fresh;
  },
)

pub list-Head :
    {spans : SpanMap} {free_spans : List (ℕ × Ptr)} {cached k : ℕ} {p : Ptr}
    → Listed spans free_spans cached
    → lookup k free_spans ≡ some p
    → (s : Span) × (ys : List Ptr) × Head spans k p s ys
list-Head {k} {p} l e = let (ne, (xs, chain)) = l.lists k p e in Chain-Head chain ne

lookup-popped :
    (k next j : ℕ) (m : List (ℕ × Ptr))
    → lookup j (popped k next m)
      ≡ (if k == j then (if next == null then none else some next) else lookup j m)
lookup-popped k next j m = ground (arith, lookup-erase k j m, lookup-insert k j next m)

-- No more pages are free than are counted.
pub free_pages_le :
    (spans : SpanMap) (p : Ptr) (s : Span)
    → IsSorted 1 spans
    → lookup p spans ≡ some s
    → s.in_free_list ≡ true
    → s.num_pages ≤ total_free spans
free_pages_le spans p s sorted alive free =
    ground (arith, total_free-insert 1 p (record s { num_pages = 0 }) spans sorted)

module _ {spans : SpanMap} {free_spans : List (ℕ × Ptr)} {cached k : ℕ} {p : Ptr} {s : Span}
    {ys : List Ptr} (sorted : IsSorted 1 spans) (l : Listed spans free_spans cached)
    (h : Head spans k p s ys) where
  unlinked_lists :
      (j : ℕ) (q : Ptr)
      → lookup j (popped k s.next free_spans) ≡ some q
      → (q ≢ null) × ((xs : List Ptr) × Chain (insert p (taken s) spans) j q xs)
  unlinked_lists j q e = elim (Bool-cases (k == j)) [
    | inl here ↦
        let next : (s.next == null) ≡ false = ground (arith, lookup-popped k s.next j free_spans) in
        let same : s.next ≡ q = ground (arith, lookup-popped k s.next j free_spans) in
        let key : k ≡ j = ground arith in
        (
          ground arith,
          (
            ys,
            subst (λ r. Chain (insert p (taken s) spans) j r ys) same
                (subst (λ i. Chain (insert p (taken s) spans) i s.next ys) key
                  (frame p (taken s) h.rest h.once)),
          ),
        )
    | inr there ↦
        let kept : lookup j free_spans ≡ some q =
          ground (arith, lookup-popped k s.next j free_spans) in
        let (ne, (zs, chain)) = l.lists j q kept in
        (
          ne,
          (
            zs,
            frame p (taken s) chain (not_listed p s chain h.alive (λ e. ground (arith, h.size))),
          ),
        )
  ]

  -- The rest is listed as before, and the count falls by the pages of the span.
  pub unlink-Listed :
      Listed (insert p (taken s) spans) (popped k s.next free_spans) (sub64 cached s.num_pages)
  unlink-Listed = record {
    keys = popped_keys;
    lists = unlinked_lists;
    counted = ground (
      arith,
      free_pages_le spans p s sorted h.alive h.free,
      total_free-insert 1 p (taken s) spans sorted,
      l.counted,
      h.alive,
      h.free,
    );
  }
    where
      popped_keys : IsSorted 0 (popped k s.next free_spans)
      popped_keys = elim (Bool-cases (s.next == null)) [
        | inl last ↦ rw last (erase-IsSorted 0 k free_spans l.keys)
        | inr more ↦ rw more (insert-IsSorted 0 k s.next free_spans (omega arith) l.keys)
      ]
