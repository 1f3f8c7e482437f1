-- ===== src/V3/CentralCache/Source.antt =====
-- One block taken from the first span of a shard.
use my_memory_pool.Prelude.{
  Ptr, null, update, ℕ, ◌≡◌, ◌<◌, refl, ◌≢◌, true, false, arith, some, List, [], ◌∷◌, ◌==◌, dec64,
  ne→==, ==_refl, length, subst,
}
use my_memory_pool.Prelude.Command.{Returns, returns}
use my_memory_pool.Prelude.Assoc.{lookup, insert, lookup_inserted}
use my_memory_pool.Prelude.Blocks.{Blocks, has, frame}
use my_memory_pool.Prelude.Blocks.Join.{first, first_some, first_fresh, rest}
use my_memory_pool.V3.World.{World, Span, Platform, done, and_then, store}
use my_memory_pool.V3.World.Rules.{read_span-ok, write_span-ok, load-ok}
use my_memory_pool.V3.CentralCache.{set_partial, available_span, take_block, drop_exhausted}

-- The span `p` heads the list of the shard, with the free blocks `xs`.
pub record Source (index : ℕ) (p : Ptr) (s : Span) (xs : List Ptr) (w : World) : Type 0 where
  pub heads : w.partial index ≡ p
  pub some_span : p ≢ null
  pub alive : lookup p w.spans ≡ some s
  pub blocks : Blocks w.word s.free_list xs
  pub counted : s.free_count ≡ length xs

-- After some blocks are taken: the span has the others, and heads the list as before, or has none
-- and has left it. Its class and size, and the page map, are as they were.
pub record Remains (index p class total next : ℕ) (pages : List (ℕ × Ptr)) (xs : List Ptr)
    (w : World) : Type 0 where
  pub span : Span
  pub alive : lookup p w.spans ≡ some span
  pub same_class : span.size_class ≡ class
  pub same_total : span.block_count ≡ total
  pub blocks : Blocks w.word span.free_list xs
  pub counted : span.free_count ≡ length xs
  pub heads : 0 < length xs → (w.partial index ≡ p) × (span.next ≡ next)
  pub leaves : length xs ≡ 0 → w.partial index ≡ next
  pub mapped : w.page_map ≡ pages

-- What `take_block` leaves: the block `x` is off the list of the span `p`.
abbrev pub taken : World → Ptr → Span → Ptr → World
taken w p s x = record w {
  spans = insert p (record s { free_list = w.word x; free_count = dec64 s.free_count }) w.spans;
  word = update w.word x null;
}

-- What is left of the source when the block `x` is taken, and when it is then hung behind
-- `end_block`.
pub first_taken-Source :
    (index p : ℕ) (s : Span) (x : Ptr) (xs : List Ptr) (w : World)
    → Source index p s (x ∷ xs) w
    → Source index p
        (record s { free_list = w.word x; free_count = dec64 s.free_count })
        xs
        (taken w p s x)
first_taken-Source index p s x xs w f =
    let tail : Blocks w.word (w.word x) xs =
      subst (λ (a : Ptr). Blocks w.word (w.word a) xs) (first f.blocks) (rest f.blocks) in
    record {
      heads = f.heads;
      some_span = f.some_span;
      alive =
          lookup_inserted p (record s { free_list = w.word x; free_count = dec64 s.free_count })
            w.spans;
      blocks = frame x null tail (first_fresh f.blocks);
      counted = ground (arith, f.counted);
    }

pub taken-Source :
    (index p : ℕ) (s : Span) (x end_block : Ptr) (xs : List Ptr) (w : World)
    → has end_block xs ≡ false
    → Source index p s (x ∷ xs) w
    → Source index p
        (record s { free_list = w.word x; free_count = dec64 s.free_count })
        xs
        (record (taken w p s x) { word = update (update w.word x null) end_block x })
taken-Source index p s x end_block xs w out f =
    let g = first_taken-Source index p s x xs w f in
    record {
      heads = g.heads;
      some_span = g.some_span;
      alive = g.alive;
      blocks = frame end_block x g.blocks out;
      counted = g.counted;
    }

module _ (os : Platform) where
  pub available_span-head :
      (index : ℕ) (w : World)
      → w.partial index ≢ null
      → available_span os index w ≡ done (w.partial index) w
  unfolding available_span
  available_span-head index w ne = rw (ne→== _ null ne) refl

  pub take_block-taken :
      (index p : ℕ) (s : Span) (x : Ptr) (xs : List Ptr) (w : World)
      → Source index p s (x ∷ xs) w
      → take_block os p w ≡ done x (taken w p s x)
  unfolding take_block store
  take_block-taken index p s x xs w f =
      let e : s.free_list ≡ x = first f.blocks in
      let ne : x ≢ null = subst (λ (a : Ptr). a ≢ null) e (first_some f.blocks) in
      rw
        (
          read_span-ok w p f.alive,
          and_then,
          e,
          load-ok w x ne,
          and_then,
          write_span-ok w p f.alive
              (record s { free_list = w.word x; free_count = dec64 s.free_count }),
          and_then,
          ne→== x null ne,
        )
        refl

  pub drop_exhausted-Remains :
      (index p class total next : ℕ) (pages : List (ℕ × Ptr)) (s : Span) (xs : List Ptr) (w : World)
      → Source index p s xs w
      → s.size_class ≡ class
      → s.block_count ≡ total
      → s.next ≡ next
      → w.page_map ≡ pages
      → Returns
          (λ _ w'. (w'.word ≡ w.word) × Remains index p class total next pages xs w')
          (drop_exhausted os index p w)
  unfolding drop_exhausted set_partial
  drop_exhausted-Remains index p class total next pages s [] w f c n e m =
      let none_left : (s.free_count == 0) ≡ true = ground (arith, f.counted) in
      let s' : Span = record s { next = null } in
      rw
        (
          read_span-ok w p f.alive,
          and_then,
          none_left,
          write_span-ok (record w { partial = update w.partial index s.next }) p f.alive s',
        )
        (returns (
          refl,
          record {
            span = s';
            alive = lookup_inserted p s' w.spans;
            same_class = c;
            same_total = n;
            blocks = f.blocks;
            counted = f.counted;
            heads = λ h. absurd (omega arith);
            leaves = λ h. rw (==_refl index) e;
            mapped = m;
          },
        ))
  drop_exhausted-Remains index p class total next pages s (x ∷ xs) w f c n e m =
      let more : (s.free_count == 0) ≡ false = ground (arith, f.counted) in
      rw (read_span-ok w p f.alive, and_then, more)
        (returns (
          refl,
          record {
            span = s;
            alive = f.alive;
            same_class = c;
            same_total = n;
            blocks = f.blocks;
            counted = f.counted;
            heads = λ h. (f.heads, e);
            leaves = λ h. absurd (omega arith);
            mapped = m;
          },
        ))
