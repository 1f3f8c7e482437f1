-- ===== src/V3/SizeClass/Fit.antt =====
-- The loops of `makeSmallIndexMap` and `makeIndexMap` find, for every entry, the first class that
-- is large enough.
use my_memory_pool.Prelude.{
  ℕ, zero, suc, ◌+◌, ◌%◌, ◌≤◌, ◌<◌, ◌≡◌, inl, inr, ◌&&◌, arith, ltb, get_or, Bool-cases,
}
use my_memory_pool.V3.SizeClass.{SizeClassTable, advance, fill_map}

module _ (t : SizeClassTable) where
  abbrev pub size_at : ℕ → ℕ
  size_at i = get_or t.sizes i 0

  -- `i` is a class of the table; every class below it is too small, and it is large enough unless
  -- it is the last.
  pub record Fits (bytes i : ℕ) : Type 0 where
    pub in_table : i < t.count
    pub below : (j : ℕ) → j < i → size_at j < bytes
    pub enough : i + 1 < t.count → bytes ≤ size_at i

  advance-Fits :
      (fuel bytes index : ℕ)
      → t.count ≤ index + fuel
      → index < t.count
      → ((j : ℕ) → j < index → size_at j < bytes)
      → Fits bytes (advance t fuel bytes index)
  unfolding advance
  advance-Fits zero bytes index h lt small = absurd (omega arith)
  advance-Fits (suc fuel) bytes index h lt small =
      elim (Bool-cases (ltb (index + 1) t.count && ltb (size_at index) bytes)) [
        | inl go ↦ rw go (
            advance-Fits fuel bytes (index + 1) (omega arith) (ground arith)
              λ j p. ground (arith, small j))
        | inr stop ↦ rw stop (record { in_table = lt; below = small; enough = λ p. ground arith })
      ]

  -- The entries from a positive one on; entry 0 stands for the smallest block and is out of order.
  module _ (bytes : ℕ → ℕ) (mono : (n : ℕ) → 0 < n → bytes n ≤ bytes (n + 1))
      (few : t.count ≤ 256) where
    pub fill_map-Fits :
        (left n index i : ℕ)
        → 0 < n
        → i < left
        → index < t.count
        → ((j : ℕ) → j < index → size_at j < bytes n)
        → Fits (bytes (n + i)) (get_or (fill_map t bytes left n index) i 0)
    unfolding fill_map
    fill_map-Fits zero n index i pos h lt small = absurd (omega arith)
    fill_map-Fits (suc left) n index zero pos h lt small =
        let f = advance-Fits t.count (bytes n) index (omega arith) lt small in
        let same : advance t t.count (bytes n) index % 256 ≡ advance t t.count (bytes n) index =
          omega (arith, f.in_table) in
        let e : n + 0 ≡ n = omega arith in rw (same, e) f
    fill_map-Fits (suc left) n index (suc i) pos h lt small =
        let f = advance-Fits t.count (bytes n) index (omega arith) lt small in
        let e : n + suc i ≡ n + 1 + i = omega arith in
        rw e (
          fill_map-Fits left (n + 1) (advance t t.count (bytes n) index) i (omega arith)
            (omega arith) f.in_table λ j p. omega (arith, f.below j p, mono n pos))

    -- Entry 0 leaves the index at 0, so every later entry is reached in order.
    pub fill_map-Fits_after_zero :
        (left i : ℕ)
        → i < left
        → 0 < t.count
        → advance t t.count (bytes 0) 0 ≡ 0
        → Fits (bytes (1 + i)) (get_or (fill_map t bytes (suc left) 0 0) (suc i) 0)
    unfolding fill_map
    fill_map-Fits_after_zero left i h some e =
        rw e (fill_map-Fits left 1 0 i (omega arith) h some λ j p. absurd (omega arith))
