-- ===== src/V3/CentralCache/Create.antt =====
-- `createSpan`: a span of the page cache becomes the blocks of a class.
use native.Mathlib.Nat.{div-mul-le_self, lt-div-mul-add}
use my_memory_pool.Prelude.{
  Ptr, null, ℕ, zero, suc, ◌+◌, ◌-◌, ◌*◌, ◌/◌, ◌≤◌, ◌<◌, ◌≡◌, refl, ◌⊎◌, true, false, arith, some,
  ◌==◌, ne→==, length, Bool-cases, inl, inr, subst, sym, ap, if◌then◌else◌, replicate,
}
use my_memory_pool.Prelude.Assoc.{lookup, lookup-insert}
use my_memory_pool.Prelude.Blocks.{Blocks, has}
use my_memory_pool.Prelude.Blocks.Held.{OnGrid}
use my_memory_pool.Prelude.Command.{Returns, returns, bind}
use my_memory_pool.V3.SizeClass.{get_size}
use my_memory_pool.V3.SizeClass.Laws.{get_size_multiple}
use my_memory_pool.V3.World.{World, Span, Platform, page_size}
use my_memory_pool.V3.World.Rules.{read_span-ok, write_span-ok}
use my_memory_pool.V3.PageCache.{page_id, mapping_bytes}
use my_memory_pool.V3.PageCache.Invariant.{Inv}
use my_memory_pool.V3.PageCache.Promise.{Promised, Granular}
use my_memory_pool.V3.PageCache.Kept.{Keeps}
use my_memory_pool.V3.PageCache.Serve.{Served, allocate_span-Served}
use my_memory_pool.V3.PageCache.Absorb.{write_used-Inv}
use my_memory_pool.V3.PageCache.Lookup.{byte_page}
use my_memory_pool.V3.PageCache.Runs.{lookup-insert_self}
use my_memory_pool.V3.CentralCache.{span_pages, link_blocks, carve_span, create_span}
use my_memory_pool.V3.CentralCache.Carve.{block_addresses, link_blocks-Blocks, create_span_room}
use my_memory_pool.V3.CentralCache.Owner.{Owner}

length-block_addresses :
    (n i : ℕ) (start : Ptr) (size : ℕ) → length (block_addresses n i start size) ≡ n
length-block_addresses zero i start size = refl
length-block_addresses (suc n) i start size = ap suc (length-block_addresses n (i + 1) start size)

-- A block from number `i` on, before number `i + n`.
numbered :
    (n i : ℕ) (start : Ptr) (size : ℕ) (a : Ptr)
    → has a (block_addresses n i start size) ≡ true
    → (k : ℕ) × ((k < i + n) × (a ≡ start + k * size))
numbered zero i start size a on = cc
numbered (suc n) i start size a on = elim (Bool-cases (a == (start + i * size))) [
  | inl here ↦ (i, (omega arith, ground arith))
  | inr later ↦
      let (k, (below, at)) = numbered n (i + 1) start size a (ground arith) in
      (k, (omega (arith, below), at))
]

before_last : (k n size : ℕ) → k < n → k * size + size ≤ n * size
before_last k n size lt = grind arith

-- The live span `p` of the class, all of whose `n` blocks are free and lie from `base` on, its first
-- byte, as many as there is room for. The page
-- map finds it for each of them.
pub record Created (os : Platform) (index : ℕ) (p : Ptr) (w : World) : Type 0 where
  pub n : ℕ
  pub base : Ptr
  pub room : 4 ≤ n
  pub above_null : 0 < base
  pub span : Span
  pub in_use : span.in_free_list ≡ false
  pub starts : base ≡ span.page_addr
  pub fits : n * get_size index ≤ span.num_pages * page_size os
  pub filled : span.num_pages * page_size os < (n + 1) * get_size index
  pub owner : Owner index p n span (block_addresses n 0 base (get_size index)) w
  pub all_free : length (block_addresses n 0 base (get_size index)) ≡ n
  pub placed :
      (a : Ptr)
      → has a (block_addresses n 0 base (get_size index)) ≡ true
      → OnGrid base (get_size index) a
  pub found :
      (a : Ptr)
      → has a (block_addresses n 0 base (get_size index)) ≡ true
      → lookup (page_id os a) w.page_map ≡ some p

one_more_block : (bytes size : ℕ) → 0 < size → bytes < (bytes / size + 1) * size
one_more_block bytes size pos = omega (arith, lt-div-mul-add {a = bytes} pos)

-- The header that `createSpan` gives to the span.
abbrev carved : Platform → (index n : ℕ) → Span → Span
carved os index n span = record span {
  block_size = get_size index;
  block_count = n;
  free_count = n;
  free_list = span.page_addr;
  size_class = index;
  is_large = false;
  next = null;
  debug_alloc_map = if os.debug_guards then replicate n 0 else span.debug_alloc_map;
  debug_large_allocated = false;
}

module _ (os : Platform) (index : ℕ) (class : index < 56) where
  carve_span-Created :
      (p : Ptr) (n pages : ℕ) (w0 w : World)
      → Keeps null w0 p w
      → Inv os w
      → 4 ≤ n
      → (s : Served os pages p w) → n ≡ s.span.num_pages * page_size os / get_size index
      → Returns
          (λ q w'. Inv os w' × (Keeps null w0 q w' × ((q ≡ null) ⊎ Created os index q w')))
          (carve_span os p index n w)
  unfolding carve_span page_id
  carve_span-Created p n pages w0 w keeps inv room s count =
      let size : ℕ = get_size index in
      let base : Ptr = s.span.page_addr in
      let some_size : 0 < size = (get_size_multiple index class).1 in
      let above : 0 < base = inv.mapped.above_null p s.span s.alive in
      let pred : suc (n - 1) ≡ n = omega arith in
      let linked : Blocks (link_blocks (n - 1) 0 base size w.word) base
          (block_addresses n 0 base size) =
        subst
          (λ m.
            Blocks (link_blocks (n - 1) 0 base size w.word) base (block_addresses m 0 base size))
          pred
          (subst
            (λ a.
              Blocks (link_blocks (n - 1) 0 base size w.word) a
                (block_addresses (suc (n - 1)) 0 base size))
            (omega arith) (link_blocks-Blocks base size some_size (n - 1) 0 w.word above)) in
      let w1 : World = record w { word = link_blocks (n - 1) 0 base size w.word } in
      let fits : n * size ≤ s.span.num_pages * page_size os =
        rw count (div-mul-le_self (s.span.num_pages * page_size os) size) in
      let filled : s.span.num_pages * page_size os < (n + 1) * size =
        rw count (one_more_block (s.span.num_pages * page_size os) size some_size) in
      rw (read_span-ok w p s.alive, write_span-ok w1 p s.alive (carved os index n s.span))
        (returns (
          write_used-Inv os w1 (record { mapped = inv.mapped; listed = inv.listed }) p s.span
              s.alive s.in_use (carved os index n s.span) refl refl s.in_use,
          (
            record {
              others = λ a t here used some_a.
                  let (here', other) = keeps.others a t here used some_a in
                  (ground (arith, lookup-insert p a (carved os index n s.span) w.spans), other);
            },
            inr (record {
              n = n;
              base = base;
              room = room;
              above_null = above;
              span = carved os index n s.span;
              in_use = s.in_use;
              starts = refl;
              fits = fits;
              filled = filled;
              owner = record {
                some_span = s.nonnull;
                alive = lookup-insert_self p (carved os index n s.span) w.spans;
                class = refl;
                total = refl;
                blocks = linked;
                counted = sym (length-block_addresses n 0 base size);
              };
              all_free = length-block_addresses n 0 base size;
              placed = λ a on. let (k, (below, at)) = numbered n 0 base size a on in (k, at);
              found = λ a on.
                  let (k, (below, at)) = numbered n 0 base size a on in
                  let inside : k * size + size ≤ n * size =
                    before_last k n size (omega (arith, below)) in
                  let (page, which) =
                    byte_page os base s.span.num_pages a (inv.mapped.aligned p s.span s.alive)
                      (omega (arith, at)) (omega (arith, at, inside, fits, some_size)) in
                  subst (λ (j : ℕ). lookup j w.page_map ≡ some p) (sym page)
                    (inv.mapped.registered p s.span ((a - base) / page_size os) s.alive which);
            }),
          ),
        ))

  some_page : 0 < span_pages os (get_size index)
  unfolding span_pages
  some_page = ground arith

  -- `createSpan` for any class runs to the end without a fault and keeps the invariant of the page
  -- cache and the spans that were in use as they were. It answers nullptr, or a live span that was
  -- not in use and is off the free lists of the page cache: from its first byte on, as many blocks of
  -- the class's size as it has room for, and at least four, lie one behind the other inside of the
  -- span, all on its free list in address order and counted, none at nullptr, and the page map finds
  -- the span for each of them. The page cache keeps its invariant before, the granularity of the system is a
  -- power of two and a multiple of the page size, and a mapping that succeeds begins at a page and
  -- has no page that is in use.
  pub create_span-Created :
      (w : World) (k : ℕ)
      → Inv os w
      → Granular os k
      → Promised os w (mapping_bytes os (span_pages os (get_size index)))
      → Returns
          (λ q w'. Inv os w' × (Keeps null w q w' × ((q ≡ null) ⊎ Created os index q w')))
          (create_span os index w)
  unfolding create_span
  create_span-Created w k inv gran promised =
      bind
        (allocate_span-Served os w k inv gran (span_pages os (get_size index)) some_page promised)
        (λ q w' (inv', (r, keeps)). elim r [
          | inl e ↦
              let nothing : (q == null) ≡ true = ground arith in
              let kept : Keeps null w null w' = subst (λ (r : Ptr). Keeps null w r w') e keeps in
              rw nothing (returns (inv', (kept, inl refl)))
          | inr s ↦
              let n : ℕ = s.span.num_pages * page_size os / get_size index in
              let room : 4 ≤ n = create_span_room os index s.span.num_pages class s.pages in
              let some_block : (n == 0) ≡ false = ground arith in
              rw (ne→== q null s.nonnull, read_span-ok w' q s.alive, some_block)
                (carve_span-Created q n (span_pages os (get_size index)) w w' keeps inv' room s
                  refl)
        ])
