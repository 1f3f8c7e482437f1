-- ===== src/V1/Pool/Chain.antt =====
-- The blocks of a pool of version 1: one list without repetition, and no two share a byte.
use my_memory_pool.Prelude.{
  Ptr, null, ℕ, ◌+◌, ◌≤◌, ◌<◌, ◌≡◌, ◌≢◌, true, false, arith, ◌⊎◌, inl, inr, List, ◌∷◌, ◌==◌,
  Bool-cases, subst,
}
use my_memory_pool.Prelude.Blocks.{Blocks, has, push}
use my_memory_pool.V1.Pool.{Heap, allocate_new_block}

-- Two blocks of `size` bytes share no byte.
abbrev pub Clear : (size : ℕ) → Ptr → Ptr → Type 0
Clear size a b = (a + size ≤ b) ⊎ (b + size ≤ a)

Clear-sym : (size : ℕ) (a b : Ptr) → Clear size a b → Clear size b a
Clear-sym size a b (inl below) = inr below
Clear-sym size a b (inr above) = inl above

-- What `operator new` answers: a block that shares no byte with those the pool has.
pub record Fresh (size : ℕ) (a : Ptr) (bs : List Ptr) : Type 0 where
  pub some_block : a ≢ null
  pub clear : (b : Ptr) → has b bs ≡ true → Clear size a b

-- A slot of one of the blocks, behind its header.
pub record Inside (size : ℕ) (slot : Ptr) (bs : List Ptr) : Type 0 where
  pub block : Ptr
  pub known : has block bs ≡ true
  pub behind_header : block + 8 ≤ slot
  pub before_end : slot < block + size

pub record Chain (bs : List Ptr) (h : Heap) : Type 0 where
  pub some_bytes : 0 < h.pool.block_size
  pub linked : Blocks h.next h.pool.first_block bs
  pub disjoint :
      (a b : Ptr) → has a bs ≡ true → has b bs ≡ true → a ≢ b → Clear h.pool.block_size a b

-- A slot behind a header is no header.
pub slot_no_header :
    (bs : List Ptr) (h : Heap) (slot : Ptr)
    → Chain bs h
    → Inside h.pool.block_size slot bs
    → has slot bs ≡ false
slot_no_header bs h slot c i = elim (Bool-cases (has slot bs)) [
  | inl same ↦
      elim (c.disjoint i.block slot i.known same (λ e. omega (arith, i.behind_header, e))) [
        | inl below ↦ absurd (omega (arith, below, i.before_end))
        | inr above ↦ absurd (omega (arith, above, i.behind_header))
      ]
  | inr other ↦ other
]

-- A fresh block becomes the first one.
pub allocate_new_block-Chain :
    (bs : List Ptr) (h : Heap) (new_block : Ptr)
    → Chain bs h
    → Fresh h.pool.block_size new_block bs
    → Chain (new_block ∷ bs) (allocate_new_block new_block h)
unfolding allocate_new_block
allocate_new_block-Chain bs h a c f = record {
  some_bytes = c.some_bytes;
  linked = push a c.linked f.some_block (elim (Bool-cases (has a bs)) [
    | inl same ↦ elim (f.clear a same) [
      | inl below ↦ absurd (omega (arith, below, c.some_bytes))
      | inr above ↦ absurd (omega (arith, above, c.some_bytes))
    ]
    | inr other ↦ other
  ]);
  disjoint = λ x y mine yours ne. elim (Bool-cases (x == a)) [
    | inl new ↦
        subst (λ (z : Ptr). Clear h.pool.block_size z y) {x = a} (ground arith)
          (f.clear y (ground arith))
    | inr old ↦ elim (Bool-cases (y == a)) [
      | inl new ↦
          subst (λ (z : Ptr). Clear h.pool.block_size x z) {x = a} (ground arith)
            (Clear-sym h.pool.block_size a x (f.clear x (ground arith)))
      | inr old' ↦ c.disjoint x y (ground arith) (ground arith) ne
    ]
  ];
}
