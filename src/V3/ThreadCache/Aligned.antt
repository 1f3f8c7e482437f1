-- ===== src/V3/ThreadCache/Aligned.antt =====
-- `allocateAligned`: what it asks `allocate` for, when it refuses, and where it forgets the
-- alignment.
use native.Mathlib.Nat.{
  one-le-pow, div-mul-le_self, lt-div-mul-add, div-add-mod, add-mul-mod_self_left,
}
use my_memory_pool.Prelude.{
  null, ℕ, ◌+◌, ◌-◌, ◌*◌, ◌/◌, ◌%◌, ◌^◌, ◌≤◌, ◌<◌, ◌≡◌, refl, ◌≢◌, ◌⊎◌, bit_and, true, false, arith,
  ==_iff, ◌==◌, leb, ltb, ◌||◌, size_max, ap, ◌&&◌, ◌∙◌,
}
use my_memory_pool.Prelude.Bits.{bit_and-clear}
use my_memory_pool.Prelude.Check.{every, every_sound}
use my_memory_pool.V3.SizeClass.{max_bytes, get_size, get_index}
use my_memory_pool.V3.SizeClass.Laws.{get_index_least}
use my_memory_pool.V3.SizeClass.Alignment.{class_multiple}
use my_memory_pool.V3.World.{Platform, pure}
use my_memory_pool.V3.ThreadCache.{ThreadCache, allocate, allocate_small, allocate_aligned}

powers_checked : every 64 (λ k. bit_and (2 ^ k) (2 ^ k - 1) == 0) ≡ true
unfolding every
powers_checked = refl

-- the test for a power of two
one_bit : (k : ℕ) → k < 64 → bit_and (2 ^ k) (2 ^ k - 1) ≡ 0
one_bit k h =
    (==_iff _ 0).0 (every_sound 64 (λ k. bit_and (2 ^ k) (2 ^ k - 1) == 0) k powers_checked h)

powers_bounded : every 64 (λ k. (leb k 3 || leb 9 (2 ^ k)) && leb (2 ^ k) (2 ^ 63)) ≡ true
unfolding every
powers_bounded = refl

power_bounds : (k : ℕ) → 3 < k → k < 64 → (8 < 2 ^ k) × (2 ^ k ≤ 2 ^ 63)
power_bounds k h lt = ground (
  arith,
  every_sound 64 (λ k. (leb k 3 || leb 9 (2 ^ k)) && leb (2 ^ k) (2 ^ 63)) k powers_bounded lt,
)

no_multiple : (p : ℕ) → 0 < p → (0 + p - 1) / p * p ≡ 0
no_multiple p pos = grind arith

module _ (os : Platform) (t : ThreadCache) where
  -- For an alignment 2^k above 8 of 64 bits and a size whose rounding does not overflow,
  -- `allocateAligned` is `allocate` of the size rounded up to a multiple of the alignment.
  pub allocate_aligned-round :
      (size k : ℕ)
      → 3 < k
      → k < 64
      → size ≤ size_max - (2 ^ k - 1)
      → allocate_aligned os t size (2 ^ k) ≡ allocate os t ((size + 2 ^ k - 1) / 2 ^ k * 2 ^ k)
  unfolding allocate_aligned
  allocate_aligned-round size k h lt fits =
      let bounds = power_bounds k h lt in
      let nonzero : (2 ^ k == 0) ≡ false = ground arith in
      let large : leb (2 ^ k) 8 ≡ false = ground arith in
      let room : ltb (size_max - (2 ^ k - 1)) size ≡ false = ground arith in
      rw
        (
          nonzero,
          one_bit k lt,
          large,
          room,
          bit_and-clear k (size + 2 ^ k - 1) (omega arith) (omega arith),
        )
        refl

  -- `allocateAligned` gives nullptr for an alignment that is no power of two, and for a size
  -- whose rounding would overflow; the cache and the state are untouched.
  pub allocate_aligned-refused :
      (size align : ℕ)
      → (align ≡ 0)
        ⊎ (bit_and align (align - 1) ≢ 0)
        ⊎ ((8 < align) × (size_max - (align - 1) < size))
      → allocate_aligned os t size align ≡ pure (null, t)
  unfolding allocate_aligned
  allocate_aligned-refused size align why = ground arith

  -- For an alignment 2^k above 8 of 64 bits, a request for no bytes is served as one for 8 bytes.
  pub zero_size_unaligned :
      (k : ℕ) → 3 < k → k < 64 → allocate_aligned os t 0 (2 ^ k) ≡ allocate os t 8
  zero_size_unaligned k h lt =
      let none_needed : (0 + 2 ^ k - 1) / 2 ^ k * 2 ^ k ≡ 0 =
        omega (arith, no_multiple (2 ^ k) (one-le-pow k 2 (omega arith))) in
      let fits : 0 ≤ size_max - (2 ^ k - 1) = omega arith in
      allocate_aligned-round 0 k h lt fits ∙ rw none_needed (unfold allocate in refl)

multiple_sum : (p a s b : ℕ) → a % p ≡ 0 → s % p ≡ 0 → (a + b * s) % p ≡ 0
multiple_sum p a s b ea es =
    let exact : s ≡ p * (s / p) = omega (arith, div-add-mod s p) in
    let factor : b * s ≡ p * (b * (s / p)) = omega (arith, ap (λ (t : ℕ). b * t) exact) in
    rw factor (add-mul-mod_self_left a p (b * (s / p)) ∙ ea)

rounded_pos : (size p : ℕ) → 0 < size → 0 < p → 0 < (size + p - 1) / p
rounded_pos size p h pos = grind arith

aligned_block :
    (size k page_addr block : ℕ)
    → k ≤ 12
    → 0 < size
    → (size + 2 ^ k - 1) / 2 ^ k * 2 ^ k ≤ max_bytes
    → page_addr % 2 ^ k ≡ 0
    → (page_addr + block * get_size (get_index ((size + 2 ^ k - 1) / 2 ^ k * 2 ^ k))) % 2 ^ k ≡ 0
aligned_block size k page_addr block h pos le e = multiple_sum (2 ^ k) page_addr _ block e (
    class_multiple k ((size + 2 ^ k - 1) / 2 ^ k) h
      (rounded_pos size (2 ^ k) pos (one-le-pow k 2 (omega arith))) le)

-- A request of a small size that is not 0.
allocate-small :
    (os : Platform) (t : ThreadCache) (size : ℕ)
    → 0 < size
    → size ≤ max_bytes
    → allocate os t size ≡ allocate_small os t (get_index size)
unfolding allocate
allocate-small os t size pos le =
    let given : (size == 0) ≡ false = ground arith in
    let small : ltb max_bytes size ≡ false = ground arith in rw (given, small) refl

-- For an alignment 2^k from 16 to 4096 and a size that is not 0 and at most MAX_BYTES less the
-- alignment, `allocateAligned` takes a block of a class whose blocks hold the size, and every block
-- of that class is aligned in a span that begins at an aligned address.
pub allocate_aligned-get_size :
    (os : Platform) (t : ThreadCache) (size k : ℕ)
    → 3 < k
    → k ≤ 12
    → 0 < size
    → size + 2 ^ k ≤ max_bytes
    → (index : ℕ) × ((allocate_aligned os t size (2 ^ k) ≡ allocate_small os t index)
        × ((size ≤ get_size index)
            × ((page_addr block : ℕ)
                → page_addr % 2 ^ k ≡ 0
                → (page_addr + block * get_size index) % 2 ^ k ≡ 0)))
allocate_aligned-get_size os t size k h le pos fits =
    let power : 0 < 2 ^ k = one-le-pow k 2 (omega arith) in
    let rounded : ℕ = (size + 2 ^ k - 1) / 2 ^ k * 2 ^ k in
    let up : size ≤ rounded = omega (arith, lt-div-mul-add {a = size + 2 ^ k - 1} power) in
    let small : rounded ≤ max_bytes =
      omega (arith, div-mul-le_self (size + 2 ^ k - 1) (2 ^ k), fits) in
    let some_byte : 0 < rounded = omega (arith, up, pos) in
    (
      get_index rounded,
      (
        allocate_aligned-round os t size k h (omega arith) (omega (arith, fits))
            ∙ allocate-small os t rounded some_byte small,
        (
          omega (arith, up, (get_index_least rounded some_byte small).1),
          λ page_addr block e. aligned_block size k page_addr block le pos small e,
        ),
      ),
    )
