-- ===== src/V3/CentralCache/Batch.antt =====
-- `fetchRange` from a span that has enough free blocks.
use my_memory_pool.Prelude.{
  Ptr, null, update, ℕ, zero, suc, ◌+◌, ◌≤◌, ◌<◌, ◌≡◌, refl, ◌≢◌, true, false, ◌||◌, arith, List,
  [], ◌∷◌, ◌++◌, ◌==◌, leb, dec64, ne→==, length, take, drop, Bool-cases, inl, inr, sym, ◌∙◌, subst,
}
use mathlib.Core.List.{append_assoc, append-nil}
use my_memory_pool.Prelude.Command.{Returns, returns, bind, weaken}
use my_memory_pool.Prelude.Blocks.{Blocks, end, link, has, frame}
use my_memory_pool.Prelude.Blocks.Join.{
  last, Apart, join, first, first_some, first_fresh, has-append, has-last, last_some,
}
use my_memory_pool.V3.SizeClass.{free_list_size}
use my_memory_pool.V3.SizeClass.Laws.{free_list_size_lem}
use my_memory_pool.V3.World.{World, Span, Platform, and_then}
use my_memory_pool.V3.World.Rules.{store-ok}
use my_memory_pool.V3.CentralCache.{fetch_loop, fetch_range}
use my_memory_pool.V3.CentralCache.Source.{
  Source, Remains, taken, available_span-head, take_block-taken, drop_exhausted-Remains,
  first_taken-Source, taken-Source,
}

module _ (os : Platform) where
  last-snoc : (y x : ℕ) (ys : List Ptr) → last y (ys ++ x ∷ []) ≡ x
  last-snoc y x [] = refl
  last-snoc y x (z ∷ ys) = last-snoc z x ys

  -- The list fetched so far, with the block `x` hung behind it.
  grown-Blocks :
      (word : Ptr → Ptr) (head y x : ℕ) (ys xs : List Ptr)
      → x ≢ null
      → Blocks word head (y ∷ ys)
      → Apart (y ∷ ys) (x ∷ xs)
      → Blocks (update (update word x null) (last y ys) x) head (y ∷ (ys ++ x ∷ []))
  grown-Blocks word head y x ys xs ne l far =
      let new : has x (y ∷ ys) ≡ false = ground (arith, far x) in
      join ys (x ∷ []) (frame x null l new) (link ne (ground arith) refl end)
        (λ a h. ground (arith, far a h))

  grown-Apart :
      (y x : ℕ) (ys xs : List Ptr)
      → has x xs ≡ false
      → Apart (y ∷ ys) (x ∷ xs)
      → Apart (y ∷ (ys ++ x ∷ [])) xs
  grown-Apart y x ys xs distinct far a h = elim (Bool-cases (a == x)) [
    | inl same ↦ subst (λ (b : Ptr). has b xs ≡ false) {x = x} {y = a} (ground arith) distinct
    | inr other ↦
        let old : has a (y ∷ ys) ≡ true = ground (arith, has-append a (y ∷ ys) (x ∷ [])) in
        ground (arith, far a old)
  ]

  -- What the span is after `left` more blocks are fetched.
  Remains-Source :
      {index p class total next : ℕ} {pages : List (ℕ × Ptr)} {x : Ptr} {xs : List Ptr} {w : World}
      (r : Remains index p class total next pages (x ∷ xs) w)
      → p ≢ null
      → Source index p r.span (x ∷ xs) w
  Remains-Source r some_span = record {
    heads = (r.heads (omega arith)).0;
    some_span = some_span;
    alive = r.alive;
    blocks = r.blocks;
    counted = r.counted;
  }

  -- The loop with the blocks `y ∷ ys` fetched so far, of which the last one is the tail.
  fetch_loop-Blocks :
      (left index p class total next : ℕ) (pages : List (ℕ × Ptr)) (head y : ℕ) (ys xs : List Ptr)
      (got : ℕ) (w : World)
      → p ≢ null
      → left ≤ length xs
      → Blocks w.word head (y ∷ ys)
      → Apart (y ∷ ys) xs
      → Remains index p class total next pages xs w
      → Returns
          (λ (start, fetched) w'.
            Blocks w'.word start ((y ∷ ys) ++ take left xs)
            × ((fetched ≡ got + left) × Remains index p class total next pages (drop left xs) w'))
          (fetch_loop os left index head (last y ys) got w)
  unfolding fetch_loop
  fetch_loop-Blocks zero index p class total next pages head y ys xs got w some_p le l far r =
      returns (rw (append-nil ys) l, (omega arith, r))
  fetch_loop-Blocks (suc left) index p class total next pages head y ys [] got w some_p le l far r =
      absurd (omega arith)
  fetch_loop-Blocks (suc left) index p class total next pages head y ys (x ∷ xs) got w some_p le l
        far r =
      let f = Remains-Source r some_p in
      let s : Span = r.span in
      let some_head : w.partial index ≢ null = λ e. some_p (sym f.heads ∙ e) in
      let some_x : x ≢ null =
        subst (λ (a : Ptr). a ≢ null) (first f.blocks) (first_some f.blocks) in
      let distinct : has x xs ≡ false = first_fresh f.blocks in
      let out : has (last y ys) xs ≡ false = ground (arith, far (last y ys), has-last y ys) in
      let w1 : World = taken w p s x in
      let w2 : World = record w1 { word = update w1.word (last y ys) x } in
      rw
        (
          available_span-head os index w some_head,
          and_then,
          f.heads,
          ne→== p null some_p,
          take_block-taken os index p s x xs w f,
          and_then,
          ne→== head null (first_some l),
          store-ok w1 (last y ys) x (last_some ys l),
          and_then,
        )
        (bind
          (drop_exhausted-Remains os index p class total next pages
            (record s { free_list = w.word x; free_count = dec64 s.free_count }) xs w2
            (taken-Source index p s x (last y ys) xs w out f) r.same_class r.same_total
            (r.heads (omega arith)).1 r.mapped)
          (λ _ w' (same, r').
            let l' : Blocks w'.word head (y ∷ (ys ++ x ∷ [])) =
              rw same (grown-Blocks w.word head y x ys xs some_x l far) in
            weaken
              (subst
                (λ (tail : Ptr).
                  Returns
                    (λ (start, fetched) w''.
                      Blocks w''.word start ((y ∷ (ys ++ x ∷ [])) ++ take left xs)
                      × ((fetched ≡ got + 1 + left)
                          × Remains index p class total next pages (drop left xs) w''))
                    (fetch_loop os left index head tail (got + 1) w'))
                (last-snoc y x ys)
                (fetch_loop-Blocks left index p class total next pages head y (ys ++ x ∷ []) xs
                  (got + 1) w' some_p (omega arith) l' (grown-Apart y x ys xs distinct far) r'))
              (λ (start, fetched) w'' (b, (n, r)). (
                subst (λ (l : List Ptr). Blocks w''.word start l)
                    (append_assoc (y ∷ ys) (x ∷ []) (take left xs)) b,
                (n ∙ omega arith, r),
              ))))

  -- For a class of the table whose shard begins with a span that has at least as many free blocks
  -- as the batch, counted and on a well-formed list, `fetchRange` of a batch that is not empty
  -- hands out the first blocks as a list of their own, in order, and counts them. The others stay
  -- free in the span, with its count, and a span that has none left leaves the list of the shard.
  -- The class and the size of the span and the page map are as they were.
  pub fetch_range-Remains :
      (index n p : ℕ) (s : Span) (xs : List Ptr) (w : World)
      → index < 56
      → 0 < n
      → n ≤ length xs
      → Source index p s xs w
      → Returns
          (λ (start, fetched) w'.
            Blocks w'.word start (take n xs)
            × ((fetched ≡ n)
                × Remains index p s.size_class s.block_count s.next w.page_map (drop n xs) w'))
          (fetch_range os index n w)
  unfolding fetch_range fetch_loop
  fetch_range-Remains index zero p s xs w class pos le f = absurd (omega arith)
  fetch_range-Remains index (suc n) p s [] w class pos le f = absurd (omega arith)
  fetch_range-Remains index (suc n) p s (x ∷ xs) w class pos le f =
      let some_head : w.partial index ≢ null = λ e. f.some_span (sym f.heads ∙ e) in
      let some_x : x ≢ null =
        subst (λ (a : Ptr). a ≢ null) (first f.blocks) (first_some f.blocks) in
      let known : (leb free_list_size index || (suc n == 0)) ≡ false =
        ground (arith, free_list_size_lem) in
      let distinct : has x xs ≡ false = first_fresh f.blocks in
      rw
        (
          known,
          available_span-head os index w some_head,
          and_then,
          f.heads,
          ne→== p null f.some_span,
          take_block-taken os index p s x xs w f,
          and_then,
        )
        (bind
          (drop_exhausted-Remains os index p s.size_class s.block_count s.next w.page_map
            (record s { free_list = w.word x; free_count = dec64 s.free_count }) xs (taken w p s x)
            (first_taken-Source index p s x xs w f) refl refl refl refl)
          (λ _ w' (same, r).
            weaken
              (fetch_loop-Blocks n index p s.size_class s.block_count s.next w.page_map x x [] xs 1
                w' f.some_span (omega arith) (rw same (link some_x (ground arith) refl end))
                (λ a h.
                  subst (λ (b : Ptr). has b xs ≡ false) {x = x} {y = a} (ground arith) distinct)
                r)
              (λ (start, fetched) w'' (b, (count, r')). (b, (count ∙ omega arith, r')))))
