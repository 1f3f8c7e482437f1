-- ===== src/Prelude/Bits.antt =====
-- `x & (2^k - 1)` and `x & ~(2^k - 1)` on words, as arithmetic, for every k.
use Prim.Native.Nat.{
  ℕ, zero, suc, ◌+◌, ◌-◌, ◌*◌, ◌/◌, ◌%◌, ◌^◌, ◌≤◌, ◌<◌, min, bit_and, digits, bit_and-bitwise,
}
use mathlib.Core.Path.{◌≡◌, refl, ap, sym, ◌∙◌}
use native.Mathlib.Nat.{
  pow-suc, one-le-pow, mul_comm, zero-add, suc-add, suc-mul, div-div-eq-div-mul,
}
use native.Mathlib.Omega.{arith}

zero-bit_and : (y : ℕ) → bit_and 0 y ≡ 0
zero-bit_and y = bit_and-bitwise 0 y

-- The native operation is a recursion on binary digits with fuel; more fuel changes nothing.
same_digits :
    (n m a b : ℕ) → a ≤ n → a ≤ m → digits (λ b. zero) min n a b ≡ digits (λ b. zero) min m a b
same_digits zero zero a b p q = refl
same_digits zero (suc m) zero b p q = refl
same_digits zero (suc m) (suc a) b p q = absurd (omega arith)
same_digits (suc n) zero zero b p q = refl
same_digits (suc n) zero (suc a) b p q = absurd (omega arith)
same_digits (suc n) (suc m) zero b p q = refl
same_digits (suc n) (suc m) (suc a) b p q =
    omega (arith, same_digits n m (suc a / 2) (b / 2) (omega arith) (omega arith))

-- one binary digit at a time
bit_and-halves : (x y : ℕ) → bit_and x y ≡ min (x % 2) (y % 2) + bit_and (x / 2) (y / 2) * 2
bit_and-halves zero b = omega (arith, zero-bit_and b, zero-bit_and (b / 2))
bit_and-halves (suc a) b = omega (
  arith,
  bit_and-bitwise (suc a) b,
  bit_and-bitwise (suc a / 2) (b / 2),
  same_digits a (suc a / 2) (suc a / 2) (b / 2) (omega arith) (omega arith),
)

bit_and-ones : (j a : ℕ) → a < 2 ^ j → bit_and a (2 ^ j - 1) ≡ a
bit_and-ones zero a h = ground (arith, zero-bit_and 0)
bit_and-ones (suc j) a h =
    ground
      (arith, pow-suc 2 j, one-le-pow j 2, bit_and-halves a (2 ^ suc j - 1), bit_and-ones j (a / 2))

pub pow-add : (j k : ℕ) → 2 ^ (j + k) ≡ 2 ^ j * 2 ^ k
pow-add zero k = simp zero-add (omega arith)
pow-add (suc j) k = simp (suc-add, pow-suc, pow-add j k) (omega arith)

-- A mask that is a multiple of 2p is seen one digit further by its half, a multiple of p.
high_step :
    (p q x : ℕ)
    → bit_and (x / 2) (q * p) ≡ x / 2 / p * p
    → bit_and x (q * (p * 2)) ≡ x / (p * 2) * (p * 2)
high_step p q x h =
    let half : q * (p * 2) / 2 ≡ q * p = omega arith in
    let even : q * (p * 2) % 2 ≡ 0 = omega arith in
    bit_and-halves x (q * (p * 2))
    ∙ rw (half, even, h, div-div-eq-div-mul x 2 p, mul_comm 2 p) (omega arith)

-- `x & (ones << k)` drops the low k bits of a number that fits in j + k bits.
bit_and-high : (k j x : ℕ) → x < 2 ^ j * 2 ^ k → bit_and x ((2 ^ j - 1) * 2 ^ k) ≡ x / 2 ^ k * 2 ^ k
bit_and-high zero j x h =
    let e : (2 ^ j - 1) * 1 ≡ 2 ^ j - 1 = omega arith in
    rw e (bit_and-ones j x (omega arith) ∙ omega arith)
bit_and-high (suc k) j x h = rw (pow-suc 2 k) (
    high_step (2 ^ k) (2 ^ j - 1) x
      (bit_and-high k j (x / 2) (omega (arith, ap (λ (t : ℕ). 2 ^ j * t) (pow-suc 2 k)))))

mask_multiple : (q p : ℕ) → q * p ≡ 2 ^ 64 → 1 ≤ p → 2 ^ 64 - 1 - (p - 1) ≡ (q - 1) * p
mask_multiple zero p e h = absurd (omega arith)
mask_multiple (suc q) p e h =
    let less : suc q - 1 ≡ q = omega arith in rw less (omega (arith, suc-mul q p))

pow_split : (k : ℕ) → k ≤ 64 → 2 ^ (64 - k) * 2 ^ k ≡ 2 ^ 64
pow_split k h = sym (pow-add (64 - k) k) ∙ ap (λ (t : ℕ). 2 ^ t) {y = 64} (omega arith)

-- `x & ~(2^k - 1)` on 64-bit words.
pub bit_and-clear :
    (k x : ℕ) → k ≤ 64 → x < 2 ^ 64 → bit_and x (2 ^ 64 - 1 - (2 ^ k - 1)) ≡ x / 2 ^ k * 2 ^ k
bit_and-clear k x h f =
    rw (mask_multiple (2 ^ (64 - k)) (2 ^ k) (pow_split k h) (one-le-pow k 2 (omega arith)))
      (bit_and-high k (64 - k) x (rw (pow_split k h) f))
