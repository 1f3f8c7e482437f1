-- ===== src/V2/CentralCache/Count.antt =====
-- `performDelayedReturn` counts the blocks of each span on the list of the class.
use my_memory_pool.Prelude.{
  Ptr, null, ℕ, zero, suc, ◌+◌, ◌*◌, ◌≤◌, ◌<◌, ◌≡◌, refl, Bool, true, false, not, ◌&&◌, ◌⊎◌, ltb,
  All, arith, Option, none, some, List, [], ◌∷◌, ◌==◌, ne→==, length, Bool-cases, subst,
  if◌then◌else◌, Option-cases, inl, inr,
}
use my_memory_pool.Prelude.Command.{Returns, returns, weaken}
use my_memory_pool.Prelude.Assoc.{lookup, insert, lookup-insert}
use my_memory_pool.Prelude.Blocks.{Blocks, end, link}
use my_memory_pool.V2.World.{World, SpanTracker, and_then}
use my_memory_pool.V2.World.Rules.{load-ok}
use my_memory_pool.V2.CentralCache.{
  in_span, find_tracker, tracker_at, get_span_tracker, one_more, count_blocks,
}

abbrev pub or_zero : Option ℕ → ℕ
or_zero none = 0
or_zero (some n) = n

-- what an unordered map of counts holds for a key
abbrev pub count_at : ℕ → List (ℕ × ℕ) → ℕ
count_at i counts = or_zero (lookup i counts)

abbrev pub one_if : ℕ → Option ℕ → ℕ
one_if i none = 0
one_if i (some j) = if j == i then 1 else 0

-- `addr` lies in the span of the tracker: at its first byte or behind, and before its end.
abbrev pub lies_in : SpanTracker → Ptr → Bool
lies_in t addr = not (ltb addr t.span_addr) && ltb addr (t.span_addr + t.num_pages * 4096)

-- how many of the blocks lie in the span of the tracker
abbrev pub number_of : SpanTracker → List Ptr → ℕ
number_of t [] = 0
number_of t (x ∷ xs) = (if lies_in t x then 1 else 0) + number_of t xs

-- Two spans that share no byte.
abbrev pub Separate : SpanTracker → SpanTracker → Type 0
Separate t u =
    (t.span_addr + t.num_pages * 4096 ≤ u.span_addr)
    ⊎ (u.span_addr + u.num_pages * 4096 ≤ t.span_addr)

-- No two trackers are of spans that share a byte.
abbrev pub AllSeparate : List SpanTracker → Type 0
AllSeparate [] = Unit {0}
AllSeparate (t ∷ ts) = All (Separate t) ts × AllSeparate ts

apart_at :
    (t u : SpanTracker) (ts : List SpanTracker) (i : ℕ)
    → All (Separate t) ts
    → tracker_at ts i ≡ some u
    → Separate t u
unfolding tracker_at
apart_at t u [] i far at = cc
apart_at t u (v ∷ ts) zero (far, fars) at =
    let same : v ≡ u = ground arith in subst (λ (z : SpanTracker). Separate t z) same far
apart_at t u (v ∷ ts) (suc i) (far, fars) at = apart_at t u ts i fars at

-- An address in one span lies in no other.
only_one :
    (t u : SpanTracker) (addr : Ptr) → Separate t u → in_span t addr ≡ true → lies_in u addr ≡ false
only_one t u addr (inl below) inside = ground arith
only_one t u addr (inr above) inside = ground arith

-- A search from place `k` on finds no place before it.
found_later :
    (k d : ℕ) (addr : Ptr) (ts : List SpanTracker) → one_if k (find_tracker (k + suc d) addr ts) ≡ 0
unfolding find_tracker
found_later k d addr [] = refl
found_later k d addr (t ∷ ts) = ground (arith, found_later k (suc d) addr ts)

-- The search finds the tracker at a place just for the addresses in its span.
found_in :
    (k i : ℕ) (addr : Ptr) (t : SpanTracker) (ts : List SpanTracker)
    → AllSeparate ts
    → tracker_at ts i ≡ some t
    → one_if (k + i) (find_tracker k addr ts) ≡ (if lies_in t addr then 1 else 0)
unfolding find_tracker tracker_at
found_in k i addr t [] far at = cc
found_in k zero addr t (u ∷ ts) (fars, far) at =
    let same : u ≡ t = ground arith in
    subst
      (λ (z : SpanTracker).
        one_if (k + 0) (find_tracker k addr (u ∷ ts)) ≡ (if lies_in z addr then 1 else 0))
      same
      (elim (Bool-cases (in_span u addr)) [
        | inl inside ↦ rw inside (ground arith)
        | inr outside ↦ rw outside (ground (arith, found_later k 0 addr ts))
      ])
found_in k (suc i) addr t (u ∷ ts) (fars, far) at = elim (Bool-cases (in_span u addr)) [
  | inl inside ↦
      let elsewhere = only_one u t addr (apart_at u t ts i fars at) inside in
      rw (inside, elsewhere) (ground arith)
  | inr outside ↦
      let later = found_in (k + 1) i addr t ts far at in
      let place : k + 1 + i ≡ k + suc i = omega arith in
      rw outside (
        subst
          (λ (j : ℕ). one_if j (find_tracker (k + 1) addr ts) ≡ (if lies_in t addr then 1 else 0))
          place later)
]

counted_up :
    (i j : ℕ) (counts : List (ℕ × ℕ))
    → count_at i (insert j (one_more (lookup j counts)) counts)
      ≡ count_at i counts + one_if i (some j)
counted_up i j counts =
    rw (count_at, lookup-insert j i (one_more (lookup j counts)) counts)
      (elim (Bool-cases (j == i)) [
        | inl same ↦ rw same (
            subst (λ (k : ℕ). one_more (lookup j counts) ≡ count_at k counts + 1) {x = j} {y = i}
              (ground arith) (up (lookup j counts)))
        | inr other ↦ rw other (omega arith)
      ])
  where
    up : (o : Option ℕ) → one_more o ≡ or_zero o + 1
    up none = refl
    up (some n) = refl

-- Let no two trackers be of spans that share a byte. Given more fuel than the list has blocks, the
-- loop adds to the count of each tracker the number of the blocks on the list that lie in its span,
-- and changes nothing else.
pub count_blocks-number_of :
    (fuel cur : ℕ) (xs : List Ptr) (counts : List (ℕ × ℕ)) (w : World)
    → AllSeparate w.span_trackers
    → Blocks w.word cur xs
    → length xs < fuel
    → Returns
        (λ counts' w'.
          (w' ≡ w)
          × ((i : ℕ) (t : SpanTracker)
              → tracker_at w.span_trackers i ≡ some t
              → count_at i counts' ≡ count_at i counts + number_of t xs))
        (count_blocks fuel cur counts w)
unfolding count_blocks get_span_tracker
count_blocks-number_of zero cur xs counts w far l h = absurd (omega arith)
count_blocks-number_of (suc fuel) _ [] counts w far end h = returns (refl, λ i t at. omega arith)
count_blocks-number_of (suc fuel) _ (x ∷ xs) counts w far (link {p} {q} ne e fresh l) h =
    elim (Option-cases (find_tracker 0 p w.span_trackers)) [
      | inl absent ↦
          rw (ne→== p null ne, absent, load-ok w p ne, and_then, e)
            (weaken (count_blocks-number_of fuel q xs counts w far l (omega arith))
              (λ c w' (same, at). (
                same,
                λ i t here.
                    ground (arith, at i t here, found_in 0 i p t w.span_trackers far here, absent),
              )))
      | inr (j, found) ↦
          rw (ne→== p null ne, found, load-ok w p ne, and_then, e)
            (weaken (count_blocks-number_of fuel q xs _ w far l (omega arith)) (λ c w' (same, at). (
              same,
              λ i t here. ground (
                arith,
                at i t here,
                counted_up i j counts,
                found_in 0 i p t w.span_trackers far here,
                found,
              ),
            )))
    ]
