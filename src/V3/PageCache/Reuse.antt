-- ===== src/V3/PageCache/Reuse.antt =====
-- `allocateSpan` where a free list has enough pages: the span it hands out, and what is left.
use my_memory_pool.Prelude.{
  ap, Ptr, null, ℕ, ◌+◌, ◌≤◌, ◌<◌, ◌≡◌, refl, ◌≢◌, arith, List, none, some, true, false, ltb, ◌==◌,
  if◌then◌else◌, Bool-cases, Option-cases, inl, inr, sub64, ltb→lt,
}
use my_memory_pool.Prelude.Assoc.{
  lookup, insert, lookup-insert, insert-IsSorted, lookup-lower_bound, lower_bound,
}
use my_memory_pool.V3.World.{World, Span, Platform, done}
use my_memory_pool.V3.World.Rules.{read_span-ok, write_span-ok}
use my_memory_pool.Prelude.Command.{Returns, returns}
use my_memory_pool.V3.PageCache.{reuse_span, allocate_span, rest_of}
use my_memory_pool.V3.PageCache.Invariant.{not_listed_absent, free_pages_at, Inv}
use my_memory_pool.V3.PageCache.Runs.{lookup-insert_self, split_span-run, after_split, listed_first}
use my_memory_pool.V3.PageCache.Unlink.{
  taken, popped, Head, list-Head, unlink-Listed, free_pages_le,
}
use my_memory_pool.V3.PageCache.Split.{Mapped-write, Mapped-split, rest_first}
use my_memory_pool.V3.PageCache.Kept.{Keeps, Keeps-trans}
use my_memory_pool.V3.PageCache.Push.{push-Listed, write-Listed, insert-insert}

-- What `allocateSpan` promises of the span `p` it hands out between `before` and `w`.
pub record Handed (os : Platform) (n : ℕ) (before : World) (p : Ptr) (w : World) : Type 0 where
  pub inv : Inv os w
  pub span : Span
  pub alive : lookup p w.spans ≡ some span
  pub pages : span.num_pages ≡ n
  pub in_use : span.in_free_list ≡ false
  pub left : w.cached_free_pages + n ≡ before.cached_free_pages
  pub others : Keeps null before p w

module _ (os : Platform) (w : World) (inv : Inv os w) where
  absent : lookup w.next_span w.spans ≡ none
  absent = elim (Option-cases (lookup w.next_span w.spans)) [
    | inl none_there ↦ none_there
    | inr (s, there) ↦ ground (arith, inv.mapped.fresh w.next_span s there)
  ]

  -- A used span of more than `n` pages is cut: the rest is listed as free.
  pub after_split-Inv :
      (p : Ptr) (s : Span) (n : ℕ)
      → lookup p w.spans ≡ some s
      → s.in_free_list ≡ false
      → 0 < n
      → n < s.num_pages
      → Inv os (after_split os w p s n)
  after_split-Inv p s n alive used pos lt =
      let r = w.next_span in
      let rest = rest_of os s n in
      let listed = listed_first rest w.free_spans in
      let sorted = insert-IsSorted 1 r listed w.spans inv.mapped.next_pos inv.mapped.sorted in
      let alive' : lookup p (insert r listed w.spans) ≡ some s =
        ground (arith, lookup-insert r p listed w.spans, inv.mapped.fresh p s) in
      rw (insert-insert 1 r listed rest w.spans inv.mapped.sorted) (record {
        mapped = rw (rest_first os p s n inv.mapped alive pos lt) (
            Mapped-split os p s n inv.mapped alive pos lt (record s { num_pages = n }) listed refl
              refl refl refl);
        listed =
            write-Listed sorted
              (push-Listed inv.mapped.sorted inv.listed r rest inv.mapped.next_pos
                (λ _ _ _ chain. not_listed_absent r chain absent) (ap free_pages_at absent) refl)
              p s (record s { num_pages = n }) alive' used used;
      })

split-Keeps :
    (os : Platform) (w : World) (p : Ptr) (s : Span) (n : ℕ)
    → ((q : Ptr) (t : Span) → lookup q w.spans ≡ some t → q < w.next_span)
    → Keeps p w p (after_split os w p s n)
split-Keeps os w p s n fresh = record {
  others = λ q t here used other.
      let r = w.next_span in
      let rest = rest_of os s n in
      let listed = listed_first rest w.free_spans in
      (
        ground (
          arith,
          fresh q t here,
          lookup-insert p q (record s { num_pages = n }) (insert r listed (insert r rest w.spans)),
          lookup-insert r q listed (insert r rest w.spans),
          lookup-insert r q rest w.spans,
        ),
        other,
      );
}

-- The world where the span `p` is off its list.
abbrev pub after_take : World → ℕ → Ptr → Span → World
after_take w k p s = record w {
  spans = insert p (taken s) w.spans;
  free_spans = popped k s.next w.free_spans;
  cached_free_pages = sub64 w.cached_free_pages s.num_pages;
}

pub after_take-Inv :
    (os : Platform) (w : World) (k : ℕ) (p : Ptr) (s : Span) (ys : List Ptr)
    → Inv os w
    → Head w.spans k p s ys
    → Inv os (after_take w k p s)
after_take-Inv os w k p s ys inv h = record {
  mapped = Mapped-write os p s (taken s) inv.mapped h.alive refl refl;
  listed = unlink-Listed inv.mapped.sorted inv.listed h;
}

module _ (os : Platform) (w : World) (n k : ℕ) (p : Ptr) (s : Span)
    (alive : lookup p w.spans ≡ some s) where
  whole : s.num_pages ≡ n → reuse_span os n k p w ≡ done p (after_take w k p s)
  unfolding reuse_span
  whole e =
      let same : ltb n s.num_pages ≡ false = ground arith in
      rw
        (
          read_span-ok w p alive,
          write_span-ok (record (after_take w k p s) { spans = w.spans }) p alive (taken s),
          same,
        )
        refl

  cut :
      n < s.num_pages
      → p < w.next_span
      → reuse_span os n k p w ≡ done p (after_split os (after_take w k p s) p (taken s) n)
  unfolding reuse_span
  cut lt old =
      let more : ltb n s.num_pages ≡ true = ground arith in
      rw
        (
          read_span-ok w p alive,
          write_span-ok (record (after_take w k p s) { spans = w.spans }) p alive (taken s),
          more,
          split_span-run os (after_take w k p s) p (taken s) n
              (lookup-insert_self p (taken s) w.spans) old,
        )
        refl

module _ (os : Platform) (w : World) (inv : Inv os w) (n k : ℕ) (p : Ptr) (s : Span) (ys : List Ptr)
    (h : Head w.spans k p s ys) (pos : 0 < n) (le : n ≤ k) where
  enough : s.num_pages ≤ w.cached_free_pages
  enough =
      ground (arith, free_pages_le w.spans p s inv.mapped.sorted h.alive h.free, inv.listed.counted)

  take-Keeps : Keeps null w p (after_take w k p s)
  take-Keeps = record {
    others = λ q t here used some_q.
        let other : q ≢ p = ground (arith, h.alive, h.free) in
        (ground (arith, lookup-insert p q (taken s) w.spans), other);
  }

  whole-Handed : s.num_pages ≡ n → Handed os n w p (after_take w k p s)
  whole-Handed e = record {
    inv = after_take-Inv os w k p s ys inv h;
    span = taken s;
    alive = lookup-insert_self p (taken s) w.spans;
    pages = e;
    in_use = refl;
    left = ground (arith, enough);
    others = take-Keeps;
  }

  cut-Handed : n < s.num_pages → Handed os n w p (after_split os (after_take w k p s) p (taken s) n)
  cut-Handed lt = record {
    inv =
        after_split-Inv os (after_take w k p s) (after_take-Inv os w k p s ys inv h) p (taken s) n
          (lookup-insert_self p (taken s) w.spans) refl pos lt;
    span = record (taken s) { num_pages = n };
    alive = lookup-insert_self p (record (taken s) { num_pages = n }) _;
    pages = refl;
    in_use = refl;
    left = ground (arith, enough);
    others = Keeps-trans take-Keeps (
        split-Keeps os (after_take w k p s) p (taken s) n
          ((after_take-Inv os w k p s ys inv h).mapped.fresh));
  }

  head_span-Handed : Returns (λ q w'. (q ≡ p) × Handed os n w q w') (reuse_span os n k p w)
  head_span-Handed = elim (Bool-cases (ltb n s.num_pages)) [
    | inl more ↦
        let lt = ltb→lt n s.num_pages more in
        rw (cut os w n k p s h.alive lt (inv.mapped.fresh p s h.alive))
          (returns (refl, cut-Handed lt))
    | inr same ↦
        let size : s.num_pages ≡ n = ground (arith, h.size) in
        rw (whole os w n k p s h.alive size) (returns (refl, whole-Handed size))
  ]

-- Where a list of at least the requested number of pages exists, `allocateSpan` keeps the
-- invariant of the page cache and hands out the head of the smallest such list: a live span of
-- exactly that number of pages (1 for a request of 0) that is not free, and the count of cached
-- pages falls by just as many. Every span that was in use is another one, and is as it was.
pub allocate_span-Handed :
    (os : Platform) (w : World) (requested k : ℕ) (p : Ptr)
    → Inv os w
    → lower_bound (if requested == 0 then 1 else requested) w.free_spans ≡ some (k, p)
    → Returns
        (λ q w'. (q ≡ p) × Handed os (if requested == 0 then 1 else requested) w q w')
        (allocate_span os requested w)
unfolding allocate_span
allocate_span-Handed os w requested k p inv found =
    let n : ℕ = if requested == 0 then 1 else requested in
    let (listed, le) = lookup-lower_bound 0 n k p w.free_spans inv.listed.keys found in
    let (s, ys, h) = list-Head inv.listed listed in
    rw (found, allocate_span) (head_span-Handed os w inv n k p s ys h (ground arith) le)
