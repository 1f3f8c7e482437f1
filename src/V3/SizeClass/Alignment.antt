-- ===== src/V3/SizeClass/Alignment.antt =====
-- Which blocks `allocateAligned` can rely on: its argument is a size that was rounded up to a
-- multiple of the alignment.
use my_memory_pool.Prelude.{
  ℕ, zero, suc, ◌*◌, ◌/◌, ◌%◌, ◌^◌, ◌≤◌, ◌<◌, ◌≡◌, refl, true, ◌||◌, arith, ◌==◌, Bool,
}
use native.Mathlib.Nat.{one-le-pow}
use my_memory_pool.Prelude.Check.{every, every_sound}
use my_memory_pool.V3.SizeClass.{max_bytes, get_size, get_index}
use my_memory_pool.V3.SizeClass.Laws.{free_list_size_lem, get_index_least}

-- size of the class before, 0 in front of the first
abbrev before : ℕ → ℕ
before zero = 0
before (suc i) = get_size i

-- Either the class is a multiple of 2^k or no multiple of 2^k has it as its class.
abbrev multiple_or_skipped : ℕ → ℕ → Bool
multiple_or_skipped k i = (get_size i % 2 ^ k == 0) || (before i / 2 ^ k == get_size i / 2 ^ k)

checked : every 13 (λ k. every 56 (multiple_or_skipped k)) ≡ true
unfolding every get_size
checked = refl

skipped : (p m b s : ℕ) → 0 < p → b < m * p → m * p ≤ s → b / p ≡ s / p → ⊥
skipped p m b s pos lo hi e = grind arith

before_lt : (n i : ℕ) → 0 < n → ((j : ℕ) → j < i → get_size j < n) → before i < n
before_lt n zero pos below = pos
before_lt n (suc i) pos below = below i (omega arith)

class_checked : (k i : ℕ) → k ≤ 12 → i < 56 → multiple_or_skipped k i ≡ true
class_checked k i h lt =
    every_sound 56 (multiple_or_skipped k) i
      (every_sound 13 (λ k. every 56 (multiple_or_skipped k)) k checked (omega arith)) lt

-- A size that is a positive multiple of 2^k, up to 4096, has a class that is a multiple too.
pub class_multiple :
    (k m : ℕ)
    → k ≤ 12
    → 0 < m
    → m * 2 ^ k ≤ max_bytes
    → get_size (get_index (m * 2 ^ k)) % 2 ^ k ≡ 0
class_multiple k m h pos le =
    let positive : 0 < m * 2 ^ k = grind (arith, one-le-pow k 2) in
    let least = get_index_least (m * 2 ^ k) positive le in
    let i = get_index (m * 2 ^ k) in
    ground (
      arith,
      class_checked k i h (omega (arith, least.0, free_list_size_lem)),
      skipped (2 ^ k) m (before i) (get_size i) (one-le-pow k 2 (omega arith))
          (before_lt (m * 2 ^ k) i positive least.2) least.1,
    )
