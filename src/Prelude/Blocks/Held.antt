-- ===== src/Prelude/Blocks/Held.antt =====
-- What a client holds: a list of distinct addresses that grows and shrinks.
use my_memory_pool.Prelude.Tests.{Ptr, ◌==◌, ltb, if◌then◌else◌, Bool-cases}
use my_memory_pool.Prelude.Lists.{length}
use my_memory_pool.Prelude.Blocks.{has}
use mathlib.Core.Path.{◌≡◌, refl, ap, sym, subst, ◌∙◌}
use Prim.Native.Nat.{ℕ, suc, ◌+◌, ◌*◌, ◌≤◌, ◌<◌}
use mathlib.Core.Logic.{◌≢◌, ◌⊎◌, inl, inr}
use mathlib.Core.Bool.{true, false, not, ◌&&◌}
use mathlib.Core.List.{List, [], ◌∷◌}
use native.Mathlib.Omega.{arith}

unfoldable pub without : Ptr → List Ptr → List Ptr
without p [] = []
without p (q ∷ held) = if p == q then without p held else q ∷ without p held

abbrev pub Distinct : List Ptr → Type 0
Distinct [] = Unit {0}
Distinct (p ∷ held) = (has p held ≡ false) × Distinct held

pub has-without :
    (a p : Ptr) (held : List Ptr) → has a (without p held) ≡ (has a held && not (p == a))
unfolding without
has-without a p [] = refl
has-without a p (q ∷ held) = ground (arith, has-without a p held)

pub without-Distinct : (p : Ptr) (held : List Ptr) → Distinct held → Distinct (without p held)
unfolding without
without-Distinct p [] d = tt
without-Distinct p (q ∷ held) (once, d) = elim (Bool-cases (p == q)) [
  | inl same ↦ rw same (without-Distinct p held d)
  | inr other ↦ rw other (ground (arith, has-without q p held), without-Distinct p held d)
]

without_absent : (p : Ptr) (held : List Ptr) → has p held ≡ false → without p held ≡ held
unfolding without
without_absent p [] out = refl
without_absent p (q ∷ held) out = ground (arith, without_absent p held)

pub length-without :
    (p : Ptr) (held : List Ptr)
    → Distinct held
    → has p held ≡ true
    → length held ≡ suc (length (without p held))
unfolding without
length-without p [] d mine = cc
length-without p (q ∷ held) (once, d) mine = elim (Bool-cases (p == q)) [
  | inl same ↦
      let gone : without p held ≡ held =
        without_absent p held
          (subst (λ (b : Ptr). has b held ≡ false) {x = q} (ground arith) once) in
      rw (same, gone) refl
  | inr other ↦ rw other (ap suc (length-without p held d (ground arith)))
]

pub has-length : (p : Ptr) (held : List Ptr) → has p held ≡ true → 0 < length held
has-length p [] mine = cc
has-length p (q ∷ held) mine = omega arith

-- Places at equal distances from a first one.
abbrev pub OnGrid : (base size : ℕ) → Ptr → Type 0
OnGrid base size a = (k : ℕ) × (a ≡ base + k * size)

next_place : (base size j k : ℕ) → j < k → base + j * size + size ≤ base + k * size
next_place base size j k lt = grind arith

-- Two of them share no byte.
pub OnGrid-apart :
    (base size : ℕ) {a b : Ptr}
    → OnGrid base size a
    → OnGrid base size b
    → a ≢ b
    → (a + size ≤ b) ⊎ (b + size ≤ a)
OnGrid-apart base size {a} {b} (j, at) (k, at') ne = elim (Bool-cases (ltb j k)) [
  | inl below ↦ inl (omega (arith, at, at', next_place base size j k (ground arith)))
  | inr above ↦ elim (Bool-cases (ltb k j)) [
    | inl over ↦ inr (omega (arith, at, at', next_place base size k j (ground arith)))
    | inr level ↦
        let same : j ≡ k = ground arith in
        absurd (ne (at ∙ ap (λ i. base + i * size) same ∙ sym at'))
  ]
]
