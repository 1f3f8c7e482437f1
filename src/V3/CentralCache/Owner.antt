-- ===== src/V3/CentralCache/Owner.antt =====
-- `returnRange` of blocks of one span that does not become whole.
use mathlib.Core.List.{reverse, reverse_aux, reverse_aux-eq}
use my_memory_pool.Prelude.{
  Ptr, null, update, ℕ, zero, suc, ◌+◌, ◌≤◌, ◌<◌, ◌≡◌, refl, ◌≢◌, true, false, ◌||◌, arith, some,
  List, [], ◌∷◌, ◌++◌, ◌==◌, leb, ne→==, ==_refl, length, All, Bool-cases, inl, inr, subst, ◌∙◌,
}
use my_memory_pool.Prelude.Command.{Returns, returns, bind, weaken}
use my_memory_pool.Prelude.Assoc.{lookup, insert, lookup_inserted}
use my_memory_pool.Prelude.Blocks.{Blocks, end, link, has, frame, push}
use my_memory_pool.Prelude.Blocks.Join.{Apart, first_some}
use my_memory_pool.V3.SizeClass.{free_list_size}
use my_memory_pool.V3.SizeClass.Laws.{free_list_size_lem}
use my_memory_pool.V3.World.{World, Span, Platform, and_then}
use my_memory_pool.V3.World.Rules.{read_span-ok, write_span-ok, load-ok, store-ok}
use my_memory_pool.V3.PageCache.{page_id, find_span, find_span_locked}
use my_memory_pool.V3.CentralCache.{set_partial, put_block, return_block, return_loop, return_range}

-- The live span `p` of the class, for `n` blocks, with the free blocks `ys`, which it counts.
pub record Owner (index p n : ℕ) (s : Span) (ys : List Ptr) (w : World) : Type 0 where
  pub some_span : p ≢ null
  pub alive : lookup p w.spans ≡ some s
  pub class : s.size_class ≡ index
  pub total : s.block_count ≡ n
  pub blocks : Blocks w.word s.free_list ys
  pub counted : s.free_count ≡ length ys

-- A write outside of its free blocks changes nothing.
pub frame-Owner :
    {index p n : ℕ} {s : Span} {ys : List Ptr} {w : World} (a b : Ptr) (w' : World)
    → Owner index p n s ys w
    → has a ys ≡ false
    → w'.word ≡ update w.word a b
    → w'.spans ≡ w.spans
    → Owner index p n s ys w'
frame-Owner a b w' o out words spans = record {
  some_span = o.some_span;
  alive = rw spans o.alive;
  class = o.class;
  total = o.total;
  blocks = rw words (frame a b o.blocks out);
  counted = o.counted;
}

-- What `put_block` leaves of the world `w`: the block `cur` is on top of the list of the span, and a
-- span that had none heads the shard.
pub record Put (index cur p n : ℕ) (ys : List Ptr) (w w' : World) : Type 0 where
  pub span : Span
  pub owner : Owner index p n span (cur ∷ ys) w'
  pub old : Ptr
  pub words : w'.word ≡ update w.word cur old
  pub pages : w'.page_map ≡ w.page_map
  pub heads : length ys ≡ 0 → w'.partial index ≡ p
  pub stays : 0 < length ys → w'.partial index ≡ w.partial index

-- The blocks `xs` are back in the span, whose free blocks were `ys` and are `zs` now. No other
-- word and no page of the page map has changed.
pub record Back (index p n : ℕ) (xs ys zs : List Ptr) (w w' : World) : Type 0 where
  pub span : Span
  pub owner : Owner index p n span zs w'
  pub stays : 0 < length ys → w'.partial index ≡ w.partial index
  pub heads : length ys ≡ 0 → 0 < length xs → w'.partial index ≡ p
  pub pages : w'.page_map ≡ w.page_map
  pub words : (a : Ptr) → has a xs ≡ false → w'.word a ≡ w.word a

later_Apart :
    (x : Ptr) (xs ys : List Ptr) → has x xs ≡ false → Apart (x ∷ xs) ys → Apart xs (x ∷ ys)
later_Apart x xs ys fresh far a h = elim (Bool-cases (a == x)) [
  | inl same ↦
      let twice : has a xs ≡ false =
        subst (λ (b : Ptr). has b xs ≡ false) {x = x} {y = a} (ground arith) fresh in
      absurd (ground arith)
  | inr other ↦ ground (arith, far a)
]

-- The span with the block `cur` on top.
abbrev topped : Span → (cur next : Ptr) → Span
topped s cur next = record s { free_list = cur; free_count = s.free_count + 1; next = next }

topped-Owner :
    (index cur p n next : ℕ) (s : Span) (ys : List Ptr) (w w' : World)
    → cur ≢ null
    → has cur ys ≡ false
    → Owner index p n s ys w
    → w'.word ≡ update w.word cur s.free_list
    → lookup p w'.spans ≡ some (topped s cur next)
    → Owner index p n (topped s cur next) (cur ∷ ys) w'
topped-Owner index cur p n next s ys w w' some_cur new o words alive = record {
  some_span = o.some_span;
  alive = alive;
  class = o.class;
  total = o.total;
  blocks = rw words (push cur o.blocks some_cur new);
  counted = omega (arith, o.counted);
}

module _ (os : Platform) where
  put_block-Put :
      (index cur p n : ℕ) (s : Span) (ys : List Ptr) (w : World)
      → cur ≢ null
      → has cur ys ≡ false
      → suc (length ys) < n
      → Owner index p n s ys w
      → Returns (λ _ w'. Put index cur p n ys w w') (put_block os index cur p s w)
  unfolding put_block set_partial
  put_block-Put index cur p n s ys w some_cur new part o =
      let part_left : (s.free_count + 1 == s.block_count) ≡ false =
        ground (arith, o.counted, o.total) in
      let w1 : World = record w { word = update w.word cur s.free_list } in
      let s1 : Span = topped s cur s.next in
      let s2 : Span = topped s cur (w.partial index) in
      let w2 : World = record w1 { spans = insert p s1 w.spans } in
      let w3 : World = record w2 {
        spans = insert p s2 w2.spans;
        partial = update w.partial index p;
      } in
      let alive1 : lookup p w2.spans ≡ some s1 = lookup_inserted p s1 w.spans in
      let alive2 : lookup p w3.spans ≡ some s2 = lookup_inserted p s2 w2.spans in
      elim (Bool-cases (s.free_count == 0)) [
        | inl exhausted ↦
            rw
              (
                store-ok w cur s.free_list some_cur,
                and_then,
                write_span-ok w1 p o.alive s1,
                and_then,
                part_left,
                exhausted,
                and_then,
                write_span-ok w2 p alive1 s2,
              )
              (returns (record {
                span = s2;
                owner =
                    topped-Owner index cur p n (w.partial index) s ys w w3 some_cur new o refl
                      alive2;
                old = s.free_list;
                words = refl;
                pages = refl;
                heads = λ h. rw (==_refl index) refl;
                stays = λ h. absurd (ground (arith, o.counted));
              }))
        | inr more ↦
            rw
              (
                store-ok w cur s.free_list some_cur,
                and_then,
                write_span-ok w1 p o.alive s1,
                and_then,
                part_left,
                more,
              )
              (returns (record {
                span = s1;
                owner = topped-Owner index cur p n s.next s ys w w2 some_cur new o refl alive1;
                old = s.free_list;
                words = refl;
                pages = refl;
                heads = λ h. absurd (ground (arith, o.counted));
                stays = λ h. refl;
              }))
      ]

  return_block-Put :
      (index cur p n : ℕ) (s : Span) (ys : List Ptr) (w : World)
      → cur ≢ null
      → lookup (page_id os cur) w.page_map ≡ some p
      → has cur ys ≡ false
      → suc (length ys) < n
      → Owner index p n s ys w
      → Returns (λ _ w'. Put index cur p n ys w w') (return_block os index cur w)
  unfolding return_block find_span find_span_locked
  return_block-Put index cur p n s ys w some_cur at new part o =
      let same : (s.size_class == index) ≡ true = ground (arith, o.class) in
      rw
        (
          ne→== cur null some_cur,
          at,
          and_then,
          ne→== p null o.some_span,
          read_span-ok w p o.alive,
          and_then,
          same,
        )
        (put_block-Put index cur p n s ys w some_cur new part o)

  nothing_given :
      (index p n : ℕ) (s : Span) (ys : List Ptr) (w : World)
      → Owner index p n s ys w
      → Back index p n [] ys ys w w
  nothing_given index p n s ys w o = record {
    span = s;
    owner = o;
    stays = λ h. refl;
    heads = λ h g. absurd (omega arith);
    pages = refl;
    words = λ a out. refl;
  }

  -- The loop with the blocks `xs` to go.
  return_loop-Owner :
      (fuel index cur p n : ℕ) (s : Span) (xs ys : List Ptr) (w : World)
      → Blocks w.word cur xs
      → length xs < fuel
      → All (λ x. lookup (page_id os x) w.page_map ≡ some p) xs
      → Apart xs ys
      → length xs + length ys < n
      → Owner index p n s ys w
      → Returns
          (λ _ w'. Back index p n xs ys (reverse_aux xs ys) w w')
          (return_loop os fuel index cur w)
  unfolding return_loop
  return_loop-Owner zero index cur p n s xs ys w l enough at far part o = absurd (omega arith)
  return_loop-Owner (suc fuel) index _ p n s [] ys w end enough at far part o =
      returns (nothing_given index p n s ys w o)
  return_loop-Owner (suc fuel) index _ p n s (x ∷ xs) ys w
        (link {p = cur} {q = next} some_cur e fresh l) enough (at, ats) far part o =
      rw (ne→== cur null some_cur, load-ok w cur some_cur, and_then, e)
        (bind
          (return_block-Put index cur p n s ys w some_cur at (far cur (ground arith)) (omega arith)
            o)
          (λ _ w' put.
            weaken
              (return_loop-Owner fuel index next p n put.span xs (cur ∷ ys) w'
                (rw put.words (frame cur put.old l fresh)) (omega arith) (rw put.pages ats)
                (later_Apart cur xs ys fresh far) (omega arith) put.owner)
              (λ _ w'' b. record {
                span = b.span;
                owner = b.owner;
                stays = λ h. b.stays (omega arith) ∙ put.stays h;
                heads = λ h g. b.stays (omega arith) ∙ put.heads h;
                pages = b.pages ∙ put.pages;
                words = λ a out. ground (arith, b.words a, put.words);
              })))

  -- Blocks of one live span of the class, on a well-formed list that shares no block with the
  -- free ones of the span, come back, and not all blocks of the span are free then. With a block
  -- count that is no less than the list is long, `returnRange` ends, and all of them are free in
  -- the span again, the last one first, and counted. A span that has other free blocks leaves the
  -- head of its shard alone; one that had none heads the shard, if a block came back. No word but
  -- the links of the blocks changes, and no page of the page map.
  pub return_range-Owner :
      (index start count p n : ℕ) (s : Span) (xs ys : List Ptr) (w : World)
      → index < 56
      → Blocks w.word start xs
      → length xs ≤ count
      → All (λ x. lookup (page_id os x) w.page_map ≡ some p) xs
      → Apart xs ys
      → length xs + length ys < n
      → Owner index p n s ys w
      → Returns
          (λ _ w'. Back index p n xs ys (reverse xs ++ ys) w w')
          (return_range os start count index w)
  unfolding return_range
  return_range-Owner index _ count p n s [] ys w class end enough at far part o =
      returns (nothing_given index p n s ys w o)
  return_range-Owner index start count p n s (x ∷ xs) ys w class l enough at far part o =
      let known : ((start == null) || leb free_list_size index) ≡ false =
        ground (arith, free_list_size_lem, first_some l) in
      rw known (
        weaken
          (return_loop-Owner (count + 1) index start p n s (x ∷ xs) ys w l (omega arith) at far part
            o)
          (λ _ w' b.
            subst (λ (l : List Ptr). Back index p n (x ∷ xs) ys l w w') (reverse_aux-eq (x ∷ xs) ys)
              b))
