-- ===== src/V3/ThreadCache/Balance.antt =====
-- The blocks of a span, free or held by a client, through the calls of a thread.
use my_memory_pool.Prelude.{
  Ptr, update, ℕ, suc, ◌+◌, ◌≤◌, ◌<◌, ◌≡◌, refl, ◌≢◌, true, false, arith, some, List, [], ◌∷◌, ◌++◌,
  ◌==◌, ◌||◌, length, length-append, subst, sym, ap, ◌∙◌, Bool-cases, inl, inr,
}
use my_memory_pool.Prelude.Assoc.{lookup}
use my_memory_pool.Prelude.Blocks.{has}
use my_memory_pool.Prelude.Blocks.Shuffle.{has-Perm, length-Perm}
use my_memory_pool.Prelude.Blocks.Held.{
  without, Distinct, has-without, without-Distinct, length-without, has-length, OnGrid,
  OnGrid-apart,
}
use my_memory_pool.Prelude.Command.{Returns, weaken}
use my_memory_pool.V3.SizeClass.{get_size}
use my_memory_pool.V3.World.{World, Span, Platform}
use my_memory_pool.V3.PageCache.{page_id}
use my_memory_pool.V3.ThreadCache.{ThreadCache, get_batch_num, allocate, deallocate_sized}
use my_memory_pool.V3.ThreadCache.Shelf.{Shelf, OnShelf, shelf_found, first_once, write-OnShelf}
use my_memory_pool.V3.ThreadCache.Take.{allocate-OnShelf}
use my_memory_pool.V3.ThreadCache.Release.{deallocate_sized-Reshelved}
use my_memory_pool.V3.ThreadCache.Client.{OfClass, Ample}

-- Every block of the span is either free or held, all at equal distances from `base`.
pub record Balance (os : Platform) (index p n : ℕ) (pages : List (ℕ × Ptr)) (base : Ptr)
    (held : List Ptr) (t : ThreadCache) (w : World) : Type 0 where
  pub free : List Ptr
  pub shelf : OnShelf os index p n pages free t w
  pub distinct : Distinct held
  pub away : (a : Ptr) → has a held ≡ true → has a free ≡ false
  pub found : (a : Ptr) → has a held ≡ true → lookup (page_id os a) pages ≡ some p
  pub placed : (a : Ptr) → has a held ≡ true → OnGrid base (get_size index) a
  pub placed_free : (a : Ptr) → has a free ≡ true → OnGrid base (get_size index) a
  pub total : length held + length free ≡ n

module _ (os : Platform) (unguarded : os.debug_guards ≡ false) (index p n : ℕ)
    (pages : List (ℕ × Ptr)) (base : Ptr) (some_base : 0 < base) where
  -- A thread without a block has a batch in the span.
  batch_ready :
      (xs ys : List Ptr) (t : ThreadCache) (w : World)
      → Ample index p t w
      → Shelf os index p n pages t xs ys w
      → length xs ≡ 0
      → get_batch_num (get_size index) ≤ length ys
  batch_ready xs ys t w ample f none =
      let (s, (alive, enough)) = ample (f.own_counted ∙ none) in
      let same : s ≡ f.span = ground (arith, f.owner.alive) in
      subst (λ (k : ℕ). get_batch_num (get_size index) ≤ k) f.owner.counted
        (subst (λ (z : Span). get_batch_num (get_size index) ≤ z.free_count) same enough)

  -- The first free block is handed out.
  pub allocate-Balance :
      (held : List Ptr) (t : ThreadCache) (w : World) (size : ℕ)
      → OfClass index size
      → Ample index p t w
      → length held < n
      → Balance os index p n pages base held t w
      → Returns
          (λ (q, t') w'. Balance os index p n pages base (q ∷ held) t' w')
          (allocate os t size w)
  allocate-Balance held t w size c ample left b =
      at_first b.free b.shelf b.away b.placed_free b.total
    where
      at_first :
          (free : List Ptr)
          → OnShelf os index p n pages free t w
          → ((a : Ptr) → has a held ≡ true → has a free ≡ false)
          → ((a : Ptr) → has a free ≡ true → OnGrid base (get_size index) a)
          → length held + length free ≡ n
          → Returns
              (λ (q, t') w'. Balance os index p n pages base (q ∷ held) t' w')
              (allocate os t size w)
      at_first [] on away placed total = absurd (omega (arith, left, total))
      at_first (x ∷ zs) (xs, (ys, (e, f))) away placed total =
          weaken
            (allocate-OnShelf os unguarded index p n pages t size x xs ys zs w c.some_byte c.small
              c.chosen (batch_ready xs ys t w ample f) f e)
            (λ (q, t') w' (at, shelf).
              subst (λ (r : Ptr). Balance os index p n pages base (r ∷ held) t' w') (sym at)
                (let x_found =
                    shelf_found os index p n pages (x ∷ zs) t w (xs, (ys, (e, f))) x
                      (ground arith) in
                  record {
                    free = zs;
                    shelf = shelf;
                    distinct = (ground (arith, away x), b.distinct);
                    away = λ a mine. elim (Bool-cases (a == x)) [
                      | inl same ↦
                          subst (λ (r : Ptr). has r zs ≡ false) {x = x} (ground arith)
                            (first_once os index p n pages x zs t w xs ys e f)
                      | inr other ↦ ground (arith, away a)
                    ];
                    found = λ a mine. elim (Bool-cases (a == x)) [
                      | inl same ↦
                          subst (λ (r : Ptr). lookup (page_id os r) pages ≡ some p) {x = x}
                            (ground arith) x_found
                      | inr other ↦ b.found a (ground arith)
                    ];
                    placed = λ a mine. elim (Bool-cases (a == x)) [
                      | inl same ↦ placed a (ground arith)
                      | inr other ↦ b.placed a (ground arith)
                    ];
                    placed_free = λ a on. placed a (ground arith);
                    total = omega (arith, total);
                  }))

  -- A held block is free again.
  pub deallocate_sized-Balance :
      (held : List Ptr) (t : ThreadCache) (w : World) (q other size : ℕ)
      → OfClass index size
      → has q held ≡ true
      → has other held ≡ true
      → other ≢ q
      → Balance os index p n pages base held t w
      → Returns
          (λ (freed, t') w'.
            (freed ≡ true) × Balance os index p n pages base (without q held) t' w')
          (deallocate_sized os t q size w)
  deallocate_sized-Balance held t w q other size c mine others ne b =
      let (xs, (ys, (e, f))) = b.shelf in
      let (k, at) = b.placed q mine in
      let less : length held ≡ suc (length (without q held)) =
        length-without q held b.distinct mine in
      let two : 0 < length (without q held) =
        has-length other (without q held) (ground (arith, has-without other q held)) in
      let counted : length xs + length ys ≡ length b.free =
        sym (length-append xs ys) ∙ ap (λ (l : List Ptr). length l) e in
      weaken
        (deallocate_sized-Reshelved os index p n pages t q size xs ys w unguarded c.some_byte
          c.small c.chosen (omega (arith, at, some_base))
          (subst (λ (l : List Ptr). has q l ≡ false) (sym e) (b.away q mine)) (b.found q mine)
          (omega (arith, counted, less, two, b.total)) f)
        (λ (freed, t') w' (accepted, (xs', (ys', (order, f')))).
          let member : (a : Ptr) → has a (xs' ++ ys') ≡ ((a == q) || has a b.free) =
            λ a. has-Perm a order ∙ ap (λ (l : List Ptr). has a (q ∷ l)) e in
          let count : length (xs' ++ ys') ≡ suc (length b.free) =
            length-Perm order ∙ ap (λ (l : List Ptr). suc (length l)) e in
          (
            accepted,
            record {
              free = xs' ++ ys';
              shelf = (xs', (ys', (refl, f')));
              distinct = without-Distinct q held b.distinct;
              away = λ a theirs. ground (arith, member a, has-without a q held, b.away a);
              found = λ a theirs. b.found a (ground (arith, has-without a q held));
              placed = λ a theirs. b.placed a (ground (arith, has-without a q held));
              placed_free = λ a on. elim (Bool-cases (a == q)) [
                | inl same ↦
                    subst (λ (r : Ptr). OnGrid base (get_size index) r) {x = q} (ground arith)
                      (k, at)
                | inr other ↦ b.placed_free a (ground (arith, member a))
              ];
              total = omega (arith, count, less, b.total);
            },
          ))

  -- A write inside of a held block changes no list.
  pub write-Balance :
      (held : List Ptr) (t : ThreadCache) (w : World) (slot at word : Ptr)
      → has slot held ≡ true
      → slot ≤ at
      → at < slot + get_size index
      → Balance os index p n pages base held t w
      → Balance os index p n pages base held t (record w { word = update w.word at word })
  write-Balance held t w slot at word mine lo hi b =
      let outside : has at b.free ≡ false = elim (Bool-cases (has at b.free)) [
        | inl on ↦
            let apart : slot ≢ at = ground (arith, b.away slot mine) in
            elim (OnGrid-apart base (get_size index) (b.placed slot mine) (b.placed_free at on)
              apart) [
                | inl below ↦ absurd (omega (arith, below, hi))
                | inr above ↦ absurd (omega (arith, above, lo, hi))
              ]
        | inr off ↦ off
      ] in
      record {
        free = b.free;
        shelf = write-OnShelf os index p n pages b.free t w at word outside b.shelf;
        distinct = b.distinct;
        away = b.away;
        found = b.found;
        placed = b.placed;
        placed_free = b.placed_free;
        total = b.total;
      }
