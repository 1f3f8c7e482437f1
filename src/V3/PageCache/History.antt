-- ===== src/V3/PageCache/History.antt =====
-- The page cache through any sequence of calls, with the spans that its callers hold.
use my_memory_pool.Prelude.{
  Ptr, null, ℕ, ◌+◌, ◌<◌, ◌≡◌, refl, ◌≢◌, arith, List, [], ◌∷◌, some, true, false, ◌==◌,
  if◌then◌else◌, Bool-cases, inl, inr, subst, ne→==,
}
use my_memory_pool.Prelude.Assoc.{lookup, insert, lookup-insert, key_ge}
use my_memory_pool.Prelude.Blocks.{has}
use my_memory_pool.Prelude.Blocks.Held.{without, Distinct, has-without, without-Distinct}
use my_memory_pool.Prelude.Command.{Returns, Returns-done, weaken}
use my_memory_pool.V3.World.{World, Span, Platform, done, empty_world}
use my_memory_pool.V3.PageCache.{allocate_span, deallocate_span, mapping_bytes}
use my_memory_pool.V3.PageCache.Invariant.{Inv, first_page}
use my_memory_pool.V3.PageCache.Kept.{Keeps}
use my_memory_pool.V3.PageCache.Promise.{Promised, Granular}
use my_memory_pool.V3.PageCache.Serve.{Answered, allocate_span-Answered}
use my_memory_pool.V3.PageCache.Absorb.{write_used-Inv}
use my_memory_pool.V3.PageCache.Deallocate.{deallocate_span-Inv}
use my_memory_pool.V3.PageCache.Initial.{empty_world-Inv}

-- The spans held after a call of `allocateSpan` that answers `q`.
abbrev pub granted : Ptr → List Ptr → List Ptr
granted q held = if q == null then held else q ∷ held

-- A live span that is on no list.
abbrev pub Used : Ptr → World → Type 0
Used p w = (s : Span) × (lookup p w.spans ≡ some s) × (s.in_free_list ≡ false)

pub record Holding (os : Platform) (held : List Ptr) (w : World) : Type 0 where
  pub inv : Inv os w
  pub distinct : Distinct held
  pub used : (p : Ptr) → has p held ≡ true → Used p w

module _ (os : Platform) where
  -- Calls that ended, and writes of a holder to its span, which leave its pages as they are.
  pub data History : List Ptr → World → Type 0 where
    begins : History [] empty_world
    grants :
        {held : List Ptr} {w w' : World} {q : Ptr} (n : ℕ)
        → History held w
        → Promised os w (mapping_bytes os (if n == 0 then 1 else n))
        → allocate_span os n w ≡ done q w'
        → History (granted q held) w'
    takes_back :
        {held : List Ptr} {w w' : World} (p : Ptr)
        → History held w
        → has p held ≡ true
        → deallocate_span os p w ≡ done tt w'
        → History (without p held) w'
    writes :
        {held : List Ptr} {w : World} (p : Ptr) (s t : Span)
        → History held w
        → has p held ≡ true
        → lookup p w.spans ≡ some s
        → t.page_addr ≡ s.page_addr
        → t.num_pages ≡ s.num_pages
        → t.in_free_list ≡ false
        → History held (record w { spans = insert p t w.spans })

  allocate_span-Holding :
      (n k : ℕ) (held : List Ptr) (w : World)
      → Granular os k
      → Holding os held w
      → Promised os w (mapping_bytes os (if n == 0 then 1 else n))
      → Returns (λ q w'. Holding os (granted q held) w') (allocate_span os n w)
  allocate_span-Holding n k held w gran h promised =
      weaken (allocate_span-Answered os w k h.inv gran n promised) after
    where
      still :
          (q : Ptr) (w' : World)
          → Keeps null w q w'
          → (p : Ptr) → has p held ≡ true
          → Used p w' × (p ≢ q)
      still q w' keeps p mine =
          let (s, here, in_use) = h.used p mine in
          let some_p : p ≢ null = ground (arith, key_ge 1 p s w.spans h.inv.mapped.sorted here) in
          let (here', other) = keeps.others p s here in_use some_p in ((s, here', in_use), other)

      after :
          (q : Ptr) (w' : World)
          → Answered os (if n == 0 then 1 else n) w q w'
          → Holding os (granted q held) w'
      after q w' (inv, (inl e, keeps)) =
          let nothing : (q == null) ≡ true = ground arith in
          rw nothing (record {
            inv = inv;
            distinct = h.distinct;
            used = λ p mine. (still q w' keeps p mine).0;
          })
      after q w' (inv, (inr s, keeps)) =
          let new : has q held ≡ false = elim (Bool-cases (has q held)) [
            | inl old ↦ absurd ((still q w' keeps q old).1 refl)
            | inr new ↦ new
          ] in
          let some_q : (q == null) ≡ false = ne→== q null s.nonnull in
          rw some_q (record {
            inv = inv;
            distinct = (new, h.distinct);
            used = λ p mine. elim (Bool-cases (p == q)) [
              | inl same ↦ subst (λ a. Used a w') {x = q} (ground arith) (s.span, s.alive, s.in_use)
              | inr other ↦ (still q w' keeps p (ground arith)).0
            ];
          })

  deallocate_span-Holding :
      (p : Ptr) (held : List Ptr) (w : World)
      → Holding os held w
      → has p held ≡ true
      → Returns (λ _ w'. Holding os (without p held) w') (deallocate_span os p w)
  deallocate_span-Holding p held w h mine =
      let (s, here, in_use) = h.used p mine in
      weaken (deallocate_span-Inv os w p s h.inv here in_use) λ _ w' (inv, keeps). record {
        inv = inv;
        distinct = without-Distinct p held h.distinct;
        used = λ q theirs.
            let (t, there, used) = h.used q (ground (arith, has-without q p held)) in
            (t, (keeps.others q t there used (ground (arith, has-without q p held))).0, used);
      }

  -- What a caller may rely on.
  pub record Safe (held : List Ptr) (w : World) : Type 0 where
    pub distinct : Distinct held
    pub used : (p : Ptr) → has p held ≡ true → Used p w
    pub disjoint :
        (p q : Ptr) (s t : Span) (i j : ℕ)
        → has p held ≡ true
        → has q held ≡ true
        → p ≢ q
        → lookup p w.spans ≡ some s
        → lookup q w.spans ≡ some t
        → i < s.num_pages
        → j < t.num_pages
        → first_page os s + i ≢ first_page os t + j
    pub may_ask :
        (n : ℕ)
        → Promised os w (mapping_bytes os (if n == 0 then 1 else n))
        → Returns (λ q w'. Holding os (granted q held) w') (allocate_span os n w)
    pub may_return :
        (p : Ptr)
        → has p held ≡ true
        → Returns (λ _ w'. Holding os (without p held) w') (deallocate_span os p w)

  module _ (k : ℕ) (gran : Granular os k) where
    History-Holding : {held : List Ptr} {w : World} → History held w → Holding os held w
    History-Holding begins = record { inv = empty_world-Inv os; distinct = tt; used = λ p mine. cc }
    History-Holding (grants {held} {w} n r promised e) =
        Returns-done (allocate_span-Holding n k held w gran (History-Holding r) promised) e
    History-Holding (takes_back {held} {w} p r mine e) =
        Returns-done (deallocate_span-Holding p held w (History-Holding r) mine) e
    History-Holding (writes {held} {w} p s t r mine here place size free) =
        let h = History-Holding r in
        let (s', here', used) = h.used p mine in
        let same : s' ≡ s = ground arith in
        record {
          inv = write_used-Inv os w h.inv p s here (ground arith) t place size free;
          distinct = h.distinct;
          used = λ q theirs. elim (Bool-cases (p == q)) [
            | inl this ↦ (t, ground (arith, lookup-insert p q t w.spans), free)
            | inr other ↦
                let (u, there, in_use) = h.used q theirs in
                (u, ground (arith, lookup-insert p q t w.spans), in_use)
          ];
        }

    -- After any sequence of calls of `allocateSpan` and `deallocateSpan` that ended, each span
    -- given back by its holder, and of writes by holders that leave the pages of their spans alone:
    -- the spans that are held are distinct live spans that are on no list, no two of them share a
    -- page, and the next call ends, whether it asks for a span or gives back one that is held. The
    -- granularity of the system is a power of two and a multiple of the page size, and each mapping
    -- that succeeds begins at a page and has no page that is in use.
    pub History-Safe : {held : List Ptr} {w : World} → History held w → Safe held w
    History-Safe {held} {w} r =
        let h = History-Holding r in
        record {
          distinct = h.distinct;
          used = h.used;
          disjoint = λ p q s t i j mine yours other here there lt lt' e. ground (
            arith,
            h.inv.mapped.registered p s i here lt,
            h.inv.mapped.registered q t j there lt',
          );
          may_ask = λ n promised. allocate_span-Holding n k held w gran h promised;
          may_return = λ p mine. deallocate_span-Holding p held w h mine;
        }
