-- ===== src/V3/ThreadCache/Flush.antt =====
-- The free blocks of a class between a thread and one span: a freed block joins the thread's list,
-- and what is over the limit goes back to the span.
use mathlib.Core.List.{append_assoc, reverse, reverse_aux, reverse_perm, Perm}
use mathlib.Core.List.Perm
use my_memory_pool.Prelude.{
  Ptr, null, update, ℕ, ◌+◌, ◌-◌, ◌≤◌, ◌<◌, ◌≡◌, refl, true, false, ◌||◌, arith, some, List, [],
  ◌∷◌, ◌++◌, ltb, leb, ne→==, ==_refl, length, length-append, All, subst, sym, ◌∙◌, Bool-cases, inl,
  inr, add64,
}
use my_memory_pool.Prelude.Assoc.{lookup}
use my_memory_pool.Prelude.Blocks.{Blocks, link, has}
use my_memory_pool.Prelude.Blocks.Split.{Split, length-Split, agree}
use my_memory_pool.Prelude.Blocks.Join.{
  last, Apart, cut, halves-Apart, has-append, has-last, last_some, first_some,
}
use my_memory_pool.Prelude.Command.{Returns, returns, bind, weaken}
use my_memory_pool.V3.SizeClass.{get_size}
use my_memory_pool.V3.World.{World, Span, Platform, Counters, done, and_then}
use my_memory_pool.V3.World.Rules.{load-ok, store-ok}
use my_memory_pool.V3.PageCache.{page_id}
use my_memory_pool.V3.CentralCache.Owner.{Owner, frame-Owner, return_range-Owner}
use my_memory_pool.V3.Counters.{record_central_flush}
use my_memory_pool.V3.ThreadCache.{
  ThreadCache, max_cached_blocks, keep_num, walk_list, cut_list, return_to_central,
}
use my_memory_pool.V3.ThreadCache.Limits.{keep_num_bounds}
use my_memory_pool.V3.ThreadCache.Shelf.{Shelf}

-- The walk of `returnToCentralCache` finds the last block that is kept.
walk_list-last :
    (p x : Ptr) (xs ys : List Ptr) (w : World)
    → Blocks w.word p ((x ∷ xs) ++ ys)
    → walk_list (length xs) p w ≡ done (last x xs) w
unfolding walk_list
walk_list-last _ x [] ys w (link {p} ne e fresh l) = refl
walk_list-last _ x (y ∷ xs) ys w (link {p} ne e fresh l) =
    rw (ne→== p null ne, load-ok w p ne, and_then, e) (walk_list-last _ y xs ys w l)

All-of-has : {P : Ptr → Type 0} (xs : List Ptr) → ((a : Ptr) → has a xs ≡ true → P a) → All P xs
All-of-has [] h = tt
All-of-has (x ∷ xs) h = (h x (ground arith), All-of-has xs (λ a on. h a (ground arith)))

has-reverse_aux : (a : Ptr) (xs ys : List Ptr) → has a (reverse_aux xs ys) ≡ (has a xs || has a ys)
has-reverse_aux a [] ys = refl
has-reverse_aux a (x ∷ xs) ys = ground (arith, has-reverse_aux a xs (x ∷ ys))

-- The blocks `bs` before `ys`, in another order.
has-back : (a : Ptr) (bs ys : List Ptr) → has a (reverse bs ++ ys) ≡ (has a bs || has a ys)
has-back a bs ys = ground (arith, has-append a (reverse bs) ys, has-reverse_aux a bs [])

-- All blocks in another order, some of them on the list of the thread.
abbrev pub Reshelved :
    Platform → (index p n : ℕ) → List (ℕ × Ptr) → List Ptr → ThreadCache → World → Type 0
Reshelved os index p n pages zs t w =
    (xs : List Ptr) × ((ys : List Ptr) × (Perm (xs ++ ys) zs × Shelf os index p n pages t xs ys w))

module _ (os : Platform) (index p n : ℕ) (pages : List (ℕ × Ptr)) where
  -- A thread's list `zs`, which may be over the limit, and the span.
  pub record Long (t : ThreadCache) (zs ys : List Ptr) (w : World) : Type 0 where
    pub own : Blocks w.word (t.free_list index) zs
    pub own_counted : t.free_list_size index ≡ length zs
    pub span : Span
    pub owner : Owner index p n span ys w
    pub heads : 0 < length ys → w.partial index ≡ p
    pub apart : Apart zs ys
    pub mapped : w.page_map ≡ pages
    pub own_pages : (a : Ptr) → has a zs ≡ true → lookup (page_id os a) pages ≡ some p
    pub span_pages : (a : Ptr) → has a ys ≡ true → lookup (page_id os a) pages ≡ some p

module _ (os : Platform) (index p n : ℕ) (pages : List (ℕ × Ptr)) (class : index < 56) where
  record_central_flush-run :
      (k : ℕ) (w : World)
      → (c : Counters) × (record_central_flush os k w ≡ done tt (record w { counters = c }))
  unfolding record_central_flush
  record_central_flush-run k w = elim (Bool-cases os.stats_enabled) [
    | inl on ↦ (
      record (w.counters) { central_flush_count = add64 w.counters.central_flush_count k },
      rw on refl,
    )
    | inr off ↦ (w.counters, rw off refl)
  ]

  cut_list-Shelf :
      (t : ThreadCache) (x b : Ptr) (xs bs ys : List Ptr) (w : World)
      → length (x ∷ xs) ≤ max_cached_blocks (get_size index)
      → length (b ∷ bs) + length ys < n
      → Long os index p n pages t ((x ∷ xs) ++ (b ∷ bs)) ys w
      → Returns
          (λ t' w'. Shelf os index p n pages t' (x ∷ xs) (reverse (b ∷ bs) ++ ys) w')
          (cut_list os t index (length (x ∷ xs)) (last x xs) w)
  unfolding cut_list
  cut_list-Shelf t x b xs bs ys w limit part f =
      let split : Ptr = last x xs in
      let whole : List Ptr = (x ∷ xs) ++ (b ∷ bs) in
      let (kept, given) = cut xs (b ∷ bs) f.own in
      let kept_end : has split whole ≡ true =
        ground (arith, has-append split (x ∷ xs) (b ∷ bs), has-last x xs) in
      let between : Apart (x ∷ xs) (b ∷ bs) = halves-Apart (x ∷ xs) (b ∷ bs) f.own in
      let out : has split ys ≡ false = f.apart split kept_end in
      let count : t.free_list_size index - length (x ∷ xs) ≡ length (b ∷ bs) =
        omega (arith, f.own_counted, length-append (x ∷ xs) (b ∷ bs)) in
      let (c, flushed) =
        record_central_flush-run (length (b ∷ bs)) (record w { word = update w.word split null }) in
      let w1 : World = record w { word = update w.word split null; counters = c } in
      let owner1 : Owner index p n f.span ys w1 = frame-Owner split null w1 f.owner out refl refl in
      rw
        (
          load-ok w split (last_some xs kept),
          and_then,
          store-ok w split null (last_some xs kept),
          and_then,
          ne→== _ null (first_some given),
          count,
          flushed,
          and_then,
        )
        (bind
          (return_range-Owner os index (w.word split) (length (b ∷ bs)) p n f.span (b ∷ bs) ys w1
            class given (omega arith)
            (All-of-has (b ∷ bs) (λ a on.
              rw f.mapped (f.own_pages a (ground (arith, has-append a (x ∷ xs) (b ∷ bs))))))
            (λ a on. f.apart a (ground (arith, has-append a (x ∷ xs) (b ∷ bs)))) part owner1)
          (λ _ w' back. returns (record {
            own =
                rw (==_refl index)
                  (agree (t.free_list index) (x ∷ xs) (λ a on. back.words a (between a on)) kept);
            own_counted = rw (==_refl index) refl;
            bounded = limit;
            span = back.span;
            owner = back.owner;
            heads = λ h. elim (Bool-cases (ltb 0 (length ys))) [
              | inl some_free ↦ back.stays (ground arith) ∙ f.heads (ground arith)
              | inr none_free ↦ back.heads (ground arith) (omega arith)
            ];
            apart = λ a on.
                let far : has a ys ≡ false =
                  f.apart a (ground (arith, has-append a (x ∷ xs) (b ∷ bs))) in
                ground (arith, has-back a (b ∷ bs) ys, between a);
            mapped = back.pages ∙ f.mapped;
            own_pages = λ a on. (f.own_pages a (ground (arith, has-append a (x ∷ xs) (b ∷ bs))));
            span_pages = λ a on. elim (Bool-cases (has a ys)) [
              | inl old ↦ (f.span_pages a old)
              | inr new ↦
                  let given_back : has a (b ∷ bs) ≡ true = ground (arith, has-back a (b ∷ bs) ys) in
                  (f.own_pages a (ground (arith, has-append a (x ∷ xs) (b ∷ bs), given_back)))
            ];
          })))

  -- A list over the limit is cut, and the rest goes back to the span.
  return_to_central-cut :
      (t : ThreadCache) (x b : Ptr) (xs bs ys : List Ptr) (w : World)
      → length ((x ∷ xs) ++ (b ∷ bs)) ≡ max_cached_blocks (get_size index) + 1
      → length ((x ∷ xs) ++ (b ∷ bs)) + length ys < n
      → length (x ∷ xs) ≡ keep_num (length ((x ∷ xs) ++ (b ∷ bs))) (get_size index)
      → Long os index p n pages t ((x ∷ xs) ++ (b ∷ bs)) ys w
      → Returns
          (Reshelved os index p n pages (((x ∷ xs) ++ (b ∷ bs)) ++ ys))
          (return_to_central os t index w)
  unfolding return_to_central
  return_to_central-cut t x b xs bs ys w over part keep f =
      let batch : ℕ = length ((x ∷ xs) ++ (b ∷ bs)) in
      let size : ℕ = get_size index in
      let bounds = keep_num_bounds batch size (omega arith) in
      let several : leb batch 1 ≡ false = ground (arith, bounds) in
      let too_many : leb batch (keep_num batch size) ≡ false = ground (arith, bounds) in
      let sum : batch ≡ length (x ∷ xs) + length (b ∷ bs) = length-append (x ∷ xs) (b ∷ bs) in
      let steps : length (x ∷ xs) - 1 ≡ length xs = omega arith in
      rw
        (
          f.own_counted,
          several,
          too_many,
          sym keep,
          steps,
          walk_list-last (t.free_list index) x xs (b ∷ bs) w f.own,
          and_then,
          ne→== _ null (last_some xs (cut xs (b ∷ bs) f.own).0),
        )
        (weaken
          (cut_list-Shelf t x b xs bs ys w (omega (arith, bounds, keep)) (omega (arith, sum)) f)
          (λ t' w' shelf. (
            x ∷ xs,
            (
              reverse (b ∷ bs) ++ ys,
              (
                subst (λ (l : List Ptr). Perm ((x ∷ xs) ++ (reverse (b ∷ bs) ++ ys)) l)
                    (sym (append_assoc (x ∷ xs) (b ∷ bs) ys))
                    (Perm.append_left (x ∷ xs) (Perm.append_right ys (reverse_perm (b ∷ bs)))),
                shelf,
              ),
            ),
          )))

  pub return_to_central-Reshelved :
      (t : ThreadCache) (x : Ptr) (xs ys : List Ptr) (w : World)
      → length (x ∷ xs) ≡ max_cached_blocks (get_size index) + 1
      → length (x ∷ xs) + length ys < n
      → Long os index p n pages t (x ∷ xs) ys w
      → Returns (Reshelved os index p n pages ((x ∷ xs) ++ ys)) (return_to_central os t index w)
  return_to_central-Reshelved t x xs ys w over part f =
      let bounds = keep_num_bounds (length (x ∷ xs)) (get_size index) (omega arith) in
      at_split
        (length-Split (keep_num (length (x ∷ xs)) (get_size index) - 1) xs (omega (arith, bounds)))
    where
      at_split :
          Split (keep_num (length (x ∷ xs)) (get_size index) - 1) xs
          → Returns (Reshelved os index p n pages ((x ∷ xs) ++ ys)) (return_to_central os t index w)
      at_split c =
          let bounds = keep_num_bounds (length (x ∷ xs)) (get_size index) (omega arith) in
          subst
            (λ (l : List Ptr).
              length (x ∷ l) ≡ max_cached_blocks (get_size index) + 1
              → length (x ∷ l) + length ys < n
              → length (x ∷ c.front) ≡ keep_num (length (x ∷ l)) (get_size index)
              → Long os index p n pages t (x ∷ l) ys w
              → Returns (Reshelved os index p n pages ((x ∷ l) ++ ys))
                  (return_to_central os t index w))
            (sym c.whole) (return_to_central-cut t x c.next c.front c.back ys w) over part
            (omega (arith, c.kept, bounds)) f
