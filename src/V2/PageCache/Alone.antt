-- ===== src/V2/PageCache/Alone.antt =====
-- A span that `deallocateSpan` finds nothing to merge with goes on the free list for its size.
use my_memory_pool.Prelude.{
  Ptr, ℕ, ◌+◌, ◌*◌, ◌≡◌, refl, ◌≢◌, inl, inr, false, arith, Option, none, some, ◌==◌, ne→==,
  Bool-cases,
}
use my_memory_pool.Prelude.Assoc.{lookup, insert, lookup-insert, lookup_inserted}
use my_memory_pool.V2.World.{Span, World, done, and_then}
use my_memory_pool.V2.World.Rules.{read_span-ok, write_span-ok}
use my_memory_pool.V2.PageCache.{
  page_size, or_null, deallocate_span, push_free_span, merge_next, merge_prev, entry_before,
  remove_from_free_list,
}

-- The span `q` is another one than `p`, with no free list for its size: it is in use.
pub record Busy (w : World) (p q : Ptr) (t : Span) : Type 0 where
  pub other : (p == q) ≡ false
  pub there : lookup q w.spans ≡ some t
  pub off_list : lookup t.num_pages w.free_spans ≡ none

-- The span `q` is another one than `p` and does not end at `addr`.
pub record Distant (w : World) (p q addr : Ptr) (t : Span) : Type 0 where
  pub other : (p == q) ≡ false
  pub there : lookup q w.spans ≡ some t
  pub gap : t.page_addr + t.num_pages * page_size ≢ addr

-- The map has no entry where the pages end, or that of a span that is in use.
pub data NoNext (w : World) (p : Ptr) : Option Ptr → Type 0 where
  missing : NoNext w p none
  busy : (q : Ptr) (t : Span) → Busy w p q t → NoNext w p (some q)

-- The map has no entry before that of the pages at `addr`, or that of a span that ends elsewhere
-- or is in use.
pub data NoPrev (w : World) (p addr : Ptr) : Option Ptr → Type 0 where
  missing : NoPrev w p addr none
  busy : (q : Ptr) (t : Span) → Busy w p q t → NoPrev w p addr (some q)
  distant : (q : Ptr) (t : Span) → Distant w p q addr t → NoPrev w p addr (some q)

-- The span `p`, to be given back as `n` pages, is recorded under its address, with no span to merge
-- with on either side.
pub record Alone (w : World) (n p : ℕ) (s : Span) : Type 0 where
  pub recorded : lookup s.page_addr w.span_map ≡ some p
  pub alive : lookup p w.spans ≡ some s
  pub no_next : NoNext w p (lookup (s.page_addr + n * page_size) w.span_map)
  pub no_prev : NoPrev w p s.page_addr (entry_before s.page_addr none w.span_map)

-- What `deallocateSpan` leaves.
abbrev pub given_back : World → ℕ → Ptr → Span → World
given_back w n p s = record w {
  spans =
      insert p (record s { num_pages = n; next = or_null (lookup n w.free_spans) })
        (insert p (record s { num_pages = n }) w.spans);
  free_spans = insert n p w.free_spans;
}

Busy-same :
    {w w' : World} {p q : Ptr} {t : Span}
    → w'.spans ≡ w.spans
    → w'.free_spans ≡ w.free_spans
    → Busy w p q t
    → Busy w' p q t
Busy-same spans lists b = record {
  other = b.other;
  there = rw spans b.there;
  off_list = rw lists b.off_list;
}

NoNext-same :
    {w w' : World} {p : Ptr} {o : Option Ptr}
    → w'.spans ≡ w.spans
    → w'.free_spans ≡ w.free_spans
    → NoNext w p o
    → NoNext w' p o
NoNext-same spans lists missing = missing
NoNext-same spans lists (busy q t b) = busy q t (Busy-same spans lists b)

NoPrev-same :
    {w w' : World} {p addr : Ptr} {o : Option Ptr}
    → w'.spans ≡ w.spans
    → w'.free_spans ≡ w.free_spans
    → NoPrev w p addr o
    → NoPrev w' p addr o
NoPrev-same spans lists missing = missing
NoPrev-same spans lists (busy q t b) = busy q t (Busy-same spans lists b)
NoPrev-same spans lists (distant q t d) =
    distant q t (record { other = d.other; there = rw spans d.there; gap = d.gap })

pub Alone-same :
    (w w' : World) {n p : ℕ} {s : Span}
    → w'.spans ≡ w.spans
    → w'.span_map ≡ w.span_map
    → w'.free_spans ≡ w.free_spans
    → Alone w n p s
    → Alone w' n p s
Alone-same w w' spans map lists a = record {
  recorded = rw map a.recorded;
  alive = rw spans a.alive;
  no_next = rw map (NoNext-same spans lists a.no_next);
  no_prev = rw map (NoPrev-same spans lists a.no_prev);
}

-- The span `p` is written.
abbrev written : World → Ptr → Span → World
written w p s1 = record w { spans = insert p s1 w.spans }

-- The span is still off the free lists after `p` is written.
remove_from_free_list-Busy :
    (w : World) (p q : Ptr) (s1 t : Span)
    → Busy w p q t
    → remove_from_free_list q (record w { spans = insert p s1 w.spans })
      ≡ done false (record w { spans = insert p s1 w.spans })
unfolding remove_from_free_list
remove_from_free_list-Busy w p q s1 t b =
    let w1 : World = record w { spans = insert p s1 w.spans } in
    let there : lookup q w1.spans ≡ some t =
      ground (arith, lookup-insert p q s1 w.spans, b.there, b.other) in
    rw (read_span-ok w1 q there, and_then, b.off_list) refl

merge_next-NoNext :
    (w : World) (n p ptr : Ptr) (s1 : Span)
    → NoNext w p (lookup (ptr + n * page_size) w.span_map)
    → merge_next ptr p n (record w { spans = insert p s1 w.spans })
      ≡ done tt (record w { spans = insert p s1 w.spans })
unfolding merge_next
merge_next-NoNext w n p ptr s1 = at (lookup (ptr + n * page_size) w.span_map) refl
  where
    at :
        (o : Option Ptr)
        → lookup (ptr + n * page_size) w.span_map ≡ o
        → NoNext w p o
        → merge_next ptr p n (record w { spans = insert p s1 w.spans })
          ≡ done tt (record w { spans = insert p s1 w.spans })
    at none e missing = cc
    at (some _) e (busy q t b) = let r = remove_from_free_list-Busy w p q s1 t b in ground arith

merge_prev-NoPrev :
    (w : World) (p : Ptr) (s1 : Span)
    → NoPrev w p s1.page_addr (entry_before s1.page_addr none w.span_map)
    → merge_prev p (record w { spans = insert p s1 w.spans })
      ≡ done p (record w { spans = insert p s1 w.spans })
unfolding merge_prev
merge_prev-NoPrev w p s1 = at (entry_before s1.page_addr none w.span_map) refl
  where
    alive1 : lookup p (insert p s1 w.spans) ≡ some s1
    alive1 = lookup_inserted p s1 w.spans

    at :
        (o : Option Ptr)
        → entry_before s1.page_addr none w.span_map ≡ o
        → NoPrev w p s1.page_addr o
        → merge_prev p (record w { spans = insert p s1 w.spans })
          ≡ done p (record w { spans = insert p s1 w.spans })
    at none e missing = rw (read_span-ok (written w p s1) p alive1, and_then, e) refl
    at (some _) e (busy q t b) =
        let there : lookup q (insert p s1 w.spans) ≡ some t =
          ground (arith, lookup-insert p q s1 w.spans, b.there, b.other) in
        elim (Bool-cases (t.page_addr + t.num_pages * page_size == s1.page_addr)) [
          | inl meets ↦
              rw
                (
                  read_span-ok (written w p s1) p alive1,
                  and_then,
                  e,
                  read_span-ok (written w p s1) q there,
                  and_then,
                  meets,
                  remove_from_free_list-Busy w p q s1 t b,
                )
                refl
          | inr ends ↦
              rw
                (
                  read_span-ok (written w p s1) p alive1,
                  and_then,
                  e,
                  read_span-ok (written w p s1) q there,
                  and_then,
                  ends,
                )
                refl
        ]
    at (some _) e (distant q t d) =
        let there : lookup q (insert p s1 w.spans) ≡ some t =
          ground (arith, lookup-insert p q s1 w.spans, d.there, d.other) in
        rw
          (
            read_span-ok (written w p s1) p alive1,
            and_then,
            e,
            read_span-ok (written w p s1) q there,
            and_then,
            ne→== _ s1.page_addr d.gap,
          )
          refl

pub deallocate_span-given_back :
    (w : World) (n p : ℕ) (s : Span)
    → Alone w n p s
    → deallocate_span s.page_addr n w ≡ done tt (given_back w n p s)
unfolding deallocate_span push_free_span
deallocate_span-given_back w n p s a =
    let s1 : Span = record s { num_pages = n } in
    let w1 : World = record w { spans = insert p s1 w.spans } in
    let alive1 : lookup p w1.spans ≡ some s1 = lookup_inserted p s1 w.spans in
    rw
      (
        a.recorded,
        read_span-ok w p a.alive,
        and_then,
        write_span-ok w p a.alive s1,
        and_then,
        merge_next-NoNext w n p s.page_addr s1 a.no_next,
        and_then,
        merge_prev-NoPrev w p s1 a.no_prev,
        and_then,
        read_span-ok w1 p alive1,
        and_then,
        write_span-ok w1 p alive1 (record s1 { next = or_null (lookup n w.free_spans) }),
      )
      refl
