-- ===== src/V1/Pool/Exclusive.antt =====
-- A slot of a pool of version 1 has one owner, whatever its client does with what it holds.
use my_memory_pool.Prelude.{
  Ptr, null, update, ℕ, ◌+◌, ◌%◌, ◌≤◌, ◌<◌, ◌≡◌, ◌≢◌, true, false, arith, inl, inr, List, [], ◌∷◌,
  ◌==◌, leb, Bool-cases, ==_refl, subst,
}
use my_memory_pool.Prelude.Blocks.{end, has, frame, push}
use my_memory_pool.Prelude.Blocks.Held.{without, Distinct, has-without, without-Distinct}
use my_memory_pool.V1.Pool.{
  Heap, init, allocate_new_block, push_free_list, pop_free_list, take_slot, carve, allocate,
  deallocate,
}
use my_memory_pool.V1.Pool.Geometry.{allocate_new_block-room}
use my_memory_pool.V1.Pool.Chain.{Clear, Fresh}
use my_memory_pool.V1.Pool.Slots.{Placed, aligned_Clear}
use my_memory_pool.V1.Pool.Ownership.{
  Owned, allocate_new_block-Owned, take_slot-Owned, relisted, word_outside, popped-Owned,
}
use my_memory_pool.V1.Pool.Lifetime.{Used, initialised, take, give, write, blocks_after}

-- `allocate` hands a slot to the client, wherever it comes from.
allocate-Owned :
    (bs held : List Ptr) (h : Heap) (new_block : Ptr)
    → Owned bs held h
    → Fresh h.pool.block_size new_block bs
    → Owned (blocks_after new_block h bs) ((allocate new_block h).0 ∷ held) (allocate new_block h).1
unfolding allocate carve pop_free_list
allocate-Owned bs held h a o f = elim (Bool-cases (h.pool.free_list.ptr == null)) [
  | inl empty ↦ elim (Bool-cases (leb h.pool.last_slot h.pool.cur_slot)) [
    | inl full ↦
        rw (empty, full)
          (take_slot-Owned (a ∷ bs) held (allocate_new_block a h)
            (allocate_new_block-Owned bs held h a o f) (allocate_new_block-room a h o.carving).1)
    | inr room ↦ rw (empty, room) (take_slot-Owned bs held h o (ground arith))
  ]
  | inr some_free ↦ rw (some_free, some_free) (popped-Owned o _ (ground arith))
]

-- A slot of the client goes to the free list.
deallocate-Owned :
    (bs held : List Ptr) (h : Heap) (slot : Ptr)
    → Owned bs held h
    → has slot held ≡ true
    → Owned bs (without slot held) (deallocate slot h)
unfolding deallocate push_free_list
deallocate-Owned bs held h slot o mine =
    let pl = o.placed slot mine in
    let some_slot : (slot == null) ≡ false = ground (arith, pl.behind_header) in
    let (no_header, not_free) =
      word_outside o slot slot mine (omega arith) (omega (arith, o.carving.slot_some)) in
    rw some_slot (
      relisted o (without slot held) (slot ∷ o.free) _ _
        (frame slot h.pool.free_list.ptr o.chain.linked no_header)
        (push slot o.listed (ground (arith, pl.behind_header)) not_free)
        (without-Distinct slot held o.distinct)
        (λ p theirs. ground (arith, has-without p slot held, o.apart p))
        (λ p theirs. o.placed p (ground (arith, has-without p slot held)))
        (λ p on. elim (Bool-cases (p == slot)) [
          | inl same ↦ o.placed p (ground arith)
          | inr other ↦ o.placed_free p (ground arith)
        ]))

write-Owned :
    (bs held : List Ptr) (h : Heap) (slot at word : Ptr)
    → Owned bs held h
    → has slot held ≡ true
    → slot ≤ at
    → at < slot + h.pool.slot_size
    → Owned bs held (record h { next = update h.next at word })
write-Owned bs held h slot at word o mine lo hi =
    let (no_header, not_free) = word_outside o slot at mine lo hi in
    relisted o held o.free (update h.next at word) h.pool.free_list
      (frame at word o.chain.linked no_header) (frame at word o.listed not_free) o.distinct o.apart
      o.placed o.placed_free

pub Used-Owned : {bs held : List Ptr} {h : Heap} → Used bs held h → Owned bs held h
unfolding init
Used-Owned (initialised next block_size slot_size whole pos ample) = record {
  carving = record {
    slot_whole = whole;
    slot_some = pos;
    block_ample = ample;
    behind_header = λ lt. absurd (omega arith);
    before_end = λ lt. absurd (omega arith);
    aligned = λ lt. absurd (omega arith);
  };
  chain = record { some_bytes = omega arith; linked = end; disjoint = λ a b mine yours ne. cc };
  newest = λ lt. absurd (omega arith);
  free = [];
  listed = end;
  distinct = tt;
  apart = λ a mine. cc;
  placed = λ p mine. cc;
  placed_free = λ p on. cc;
}
Used-Owned (take {bs} {held} {h} new_block u f) =
    allocate-Owned bs held h new_block (Used-Owned u) f
Used-Owned (give {bs} {held} {h} slot u mine) = deallocate-Owned bs held h slot (Used-Owned u) mine
Used-Owned (write {bs} {held} {h} slot at word u mine lo hi) =
    write-Owned bs held h slot at word (Used-Owned u) mine lo hi

allocate-slot_size :
    (h : Heap) (new_block : Ptr) → (allocate new_block h).1.pool.slot_size ≡ h.pool.slot_size
unfolding allocate carve pop_free_list take_slot allocate_new_block
allocate-slot_size h a = ground arith

-- A pool that was initialised with a slot size that is a positive multiple of 8 and two slots to a
-- block, and then used by one thread: the client takes slots, gives back what it holds and writes
-- anywhere inside what it holds, and `operator new` answers blocks that are not at nullptr and
-- share no byte with those of the pool. Then the slots that are held are distinct, each lies in a
-- block of the pool behind its header at a multiple of the slot size, no two of them share a byte,
-- and the next slot that `allocate` hands out shares none with any of them.
pub Used-exclusive :
    {bs held : List Ptr} {h : Heap}
    → Used bs held h
    → Distinct held
      × ((p : Ptr) → has p held ≡ true → Placed bs h.pool p)
      × ((p q : Ptr) → has p held ≡ true → has q held ≡ true → p ≢ q → Clear h.pool.slot_size p q)
      × ((new_block p : Ptr)
          → Fresh h.pool.block_size new_block bs
          → has p held ≡ true
          → Clear h.pool.slot_size p (allocate new_block h).0)
Used-exclusive {bs} {held} {h} u =
    let o = Used-Owned u in
    (
      o.distinct,
      o.placed,
      (λ p q mine yours other.
          aligned_Clear h.pool.slot_size p q (o.placed p mine).slot_aligned
            (o.placed q yours).slot_aligned other),
      (λ a p f mine.
          let o' = Used-Owned (take a u f) in
          let q : Ptr = (allocate a h).0 in
          let other : p ≢ q = ground (arith, o'.distinct) in
          aligned_Clear h.pool.slot_size p q (o.placed p mine).slot_aligned
            (subst (λ (s : ℕ). q % s ≡ 0) (allocate-slot_size h a)
              (o'.placed q (ground (arith, ==_refl q))).slot_aligned)
            other),
    )
