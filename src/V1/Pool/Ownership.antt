-- ===== src/V1/Pool/Ownership.antt =====
-- Who owns which slot of a pool of version 1: its client, or the free list.
use my_memory_pool.Prelude.{
  Ptr, null, ℕ, ◌+◌, ◌≤◌, ◌<◌, ◌≡◌, ◌≢◌, refl, true, false, arith, inl, inr, List, [], ◌∷◌, ◌==◌,
  Bool-cases, ==_refl, subst, sym,
}
use my_memory_pool.Prelude.Blocks.{Blocks, has, frame, head_null}
use my_memory_pool.Prelude.Blocks.Join.{Apart, first, first_fresh, rest}
use my_memory_pool.Prelude.Blocks.Held.{Distinct}
use my_memory_pool.V1.Pool.{TaggedPtr, Heap, allocate_new_block, take_slot}
use my_memory_pool.V1.Pool.Geometry.{IsCarving, take_slot-InBlock, allocate_new_block-room}
use my_memory_pool.V1.Pool.Chain.{Fresh, Chain, slot_no_header, allocate_new_block-Chain}
use my_memory_pool.V1.Pool.Slots.{Placed, aligned_Clear, word_Inside, fresh_slot, block_fresh}

-- The slots that the client holds and those of the free list are distinct slots of the blocks.
pub record Owned (bs held : List Ptr) (h : Heap) : Type 0 where
  pub carving : IsCarving h.pool
  pub chain : Chain bs h
  pub newest : h.pool.cur_slot < h.pool.last_slot → has h.pool.first_block bs ≡ true
  pub free : List Ptr
  pub listed : Blocks h.next h.pool.free_list.ptr free
  pub distinct : Distinct held
  pub apart : Apart held free
  pub placed : (p : Ptr) → has p held ≡ true → Placed bs h.pool p
  pub placed_free : (p : Ptr) → has p free ≡ true → Placed bs h.pool p

absent : (a : Ptr) (xs : List Ptr) → ¬ (has a xs ≡ true) → has a xs ≡ false
absent a xs no_way = elim (Bool-cases (has a xs)) [ inl on ↦ absurd (no_way on) | inr off ↦ off ]

-- A new block changes nothing for the slots there are.
pub allocate_new_block-Owned :
    (bs held : List Ptr) (h : Heap) (new_block : Ptr)
    → Owned bs held h
    → Fresh h.pool.block_size new_block bs
    → Owned (new_block ∷ bs) held (allocate_new_block new_block h)
unfolding allocate_new_block
allocate_new_block-Owned bs held h a o f = record {
  carving = (allocate_new_block-room a h o.carving).0;
  chain = allocate_new_block-Chain bs h a o.chain f;
  newest = λ lt. ground (arith, ==_refl a);
  free = o.free;
  listed = frame a h.pool.first_block o.listed not_free;
  distinct = o.distinct;
  apart = o.apart;
  placed = λ p mine. still p (o.placed p mine);
  placed_free = λ p mine. still p (o.placed_free p mine);
}
  where
    not_free : has a o.free ≡ false
    not_free =
        absent a o.free (λ on. block_fresh bs h a a f o.carving.slot_some (o.placed_free a on) refl)

    other : (b : Ptr) → has b bs ≡ true → b ≢ a
    other b known same = elim (f.clear b known) [
      | inl below ↦ omega (arith, below, same, o.chain.some_bytes)
      | inr above ↦ omega (arith, above, same, o.chain.some_bytes)
    ]

    still : (p : Ptr) → Placed bs h.pool p → Placed (a ∷ bs) (allocate_new_block a h).pool p
    still p pl = record {
      block = pl.block;
      known = ground (arith, pl.known);
      behind_header = pl.behind_header;
      fits = pl.fits;
      slot_aligned = pl.slot_aligned;
      passed = λ same. absurd (other pl.block pl.known same);
    }

-- The next fresh slot goes to the client.
pub take_slot-Owned :
    (bs held : List Ptr) (h : Heap)
    → Owned bs held h
    → h.pool.cur_slot < h.pool.last_slot
    → Owned bs ((take_slot h).0 ∷ held) (take_slot h).1
unfolding take_slot
take_slot-Owned bs held h o lt =
    let (b, carving') = take_slot-InBlock h o.carving lt in
    let cur : Ptr = h.pool.cur_slot in
    let room : cur + h.pool.slot_size ≤ h.pool.first_block + h.pool.block_size = b.fits in
    let new : (p : Ptr) → Placed bs h.pool p → p ≢ cur =
      λ p pl. fresh_slot bs h p o.chain o.carving.slot_some (o.newest lt) b.behind_header room pl in
    let still : (p : Ptr) → Placed bs h.pool p → Placed bs (take_slot h).1.pool p = λ p pl. record {
      block = pl.block;
      known = pl.known;
      behind_header = pl.behind_header;
      fits = pl.fits;
      slot_aligned = pl.slot_aligned;
      passed = λ same. omega (arith, pl.passed same, b.passed);
    } in
    record {
      carving = carving';
      chain = record {
        some_bytes = o.chain.some_bytes;
        linked = o.chain.linked;
        disjoint = o.chain.disjoint;
      };
      newest = λ lt'. o.newest lt;
      free = o.free;
      listed = o.listed;
      distinct = (absent cur held (λ mine. new cur (o.placed cur mine) refl), o.distinct);
      apart = λ p mine. elim (Bool-cases (p == cur)) [
        | inl same ↦
            subst (λ (q : Ptr). has q o.free ≡ false) {x = cur} (ground arith)
              (absent cur o.free (λ on. new cur (o.placed_free cur on) refl))
        | inr older ↦ o.apart p (ground arith)
      ];
      placed = λ p mine. elim (Bool-cases (p == cur)) [
        | inl same ↦
            subst (λ (q : Ptr). Placed bs (take_slot h).1.pool q) {x = cur} (ground arith)
              (record {
                block = h.pool.first_block;
                known = o.newest lt;
                behind_header = b.behind_header;
                fits = b.fits;
                slot_aligned = b.slot_aligned;
                passed = λ same. omega (arith, b.passed);
              })
        | inr older ↦ still p (o.placed p (ground arith))
      ];
      placed_free = λ p mine. still p (o.placed_free p mine);
    }

-- Another free list, and writes outside of the headers of blocks.
module _ {bs held : List Ptr} {h : Heap} (o : Owned bs held h) where
  pub relisted :
      (held' free : List Ptr) (next : Ptr → Ptr) (head : TaggedPtr)
      → Blocks next h.pool.first_block bs
      → Blocks next head.ptr free
      → Distinct held'
      → Apart held' free
      → ((p : Ptr) → has p held' ≡ true → Placed bs h.pool p)
      → ((p : Ptr) → has p free ≡ true → Placed bs h.pool p)
      → Owned bs held' (record { next = next; pool = record (h.pool) { free_list = head } })
  relisted held' free next head blocks listed distinct apart placed placed_free =
      let still : (p : Ptr)
          → Placed bs h.pool p
          → Placed bs (record (h.pool) { free_list = head }) p =
        λ p pl. record {
          block = pl.block;
          known = pl.known;
          behind_header = pl.behind_header;
          fits = pl.fits;
          slot_aligned = pl.slot_aligned;
          passed = pl.passed;
        } in
      record {
        carving = record {
          slot_whole = o.carving.slot_whole;
          slot_some = o.carving.slot_some;
          block_ample = o.carving.block_ample;
          behind_header = o.carving.behind_header;
          before_end = o.carving.before_end;
          aligned = o.carving.aligned;
        };
        chain = record {
          some_bytes = o.chain.some_bytes;
          linked = blocks;
          disjoint = o.chain.disjoint;
        };
        newest = o.newest;
        free = free;
        listed = listed;
        distinct = distinct;
        apart = apart;
        placed = λ p mine. still p (placed p mine);
        placed_free = λ p on. still p (placed_free p on);
      }

  -- A word of a slot that the client holds is no header and no slot of the free list.
  pub word_outside :
      (slot at : Ptr)
      → has slot held ≡ true
      → slot ≤ at
      → at < slot + h.pool.slot_size
      → (has at bs ≡ false) × (has at o.free ≡ false)
  word_outside slot at mine lo hi =
      let pl = o.placed slot mine in
      (
        slot_no_header bs h at o.chain (word_Inside bs h slot at pl lo hi),
        absent at o.free (λ on.
            let other : slot ≢ at = ground (arith, o.apart slot mine) in
            elim (aligned_Clear h.pool.slot_size slot at pl.slot_aligned
              (o.placed_free at on).slot_aligned other) [
                | inl below ↦ omega (arith, below)
                | inr above ↦ omega (arith, above, o.carving.slot_some)
              ]),
      )

  -- The first slot of the free list goes to the client.
  pub popped-Owned :
      (tag : ℕ)
      → h.pool.free_list.ptr ≢ null
      → Owned bs (h.pool.free_list.ptr ∷ held) (record h {
        pool = record (h.pool) {
          free_list = record { ptr = h.next h.pool.free_list.ptr; tag = tag };
        };
      })
  popped-Owned tag some_free = pop o.free o.listed o.apart o.placed_free
    where
      pop :
          (free : List Ptr)
          → Blocks h.next h.pool.free_list.ptr free
          → Apart held free
          → ((p : Ptr) → has p free ≡ true → Placed bs h.pool p)
          → Owned bs (h.pool.free_list.ptr ∷ held) (record h {
            pool = record (h.pool) {
              free_list = record { ptr = h.next h.pool.free_list.ptr; tag = tag };
            };
          })
      pop [] l apart placed = absurd (some_free (head_null l))
      pop (x ∷ xs) l apart placed =
          let head : Ptr = h.pool.free_list.ptr in
          let e : head ≡ x = first l in
          let once : has head xs ≡ false =
            subst (λ (q : Ptr). has q xs ≡ false) (sym e) (first_fresh l) in
          relisted (head ∷ held) xs h.next (record { ptr = h.next head; tag = tag }) o.chain.linked
            (rest l) (absent head held (λ mine. ground (arith, apart head mine)), o.distinct)
            (λ p mine. elim (Bool-cases (p == head)) [
              | inl same ↦ subst (λ (q : Ptr). has q xs ≡ false) {x = head} (ground arith) once
              | inr other ↦ ground (arith, apart p)
            ])
            (λ p mine. elim (Bool-cases (p == head)) [
              | inl same ↦ placed p (ground arith)
              | inr other ↦ o.placed p (ground arith)
            ])
            (λ p on. placed p (ground arith))
