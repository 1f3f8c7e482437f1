-- ===== src/V2/SizeClass/Agreement.antt =====
-- Versions 2 and 3 choose the same class.
use my_memory_pool.Prelude.{
  ℕ, zero, suc, ◌+◌, ◌/◌, ◌≤◌, ◌<◌, ◌≡◌, refl, arith, max, false, leb, ltb, Bool-cases, true,
  ltb→lt, inl, inr, ◌∙◌, sym,
}
use native.Mathlib.Decide.{dec_lt}
use my_memory_pool.V3.SizeClass.{max_bytes, get_size}
use my_memory_pool.V2.SizeTable.{alignment}
use my_memory_pool.V2.SizeTable.Laws.{get_size_same, small_map_same, free_list_size_lem}
use my_memory_pool.V3.SizeClass
use my_memory_pool.V3.SizeClass.Laws
use my_memory_pool.V3.SizeClass.Laws.{
  last_size, get_size-size_at, get_index_least, get_index_above, least_unique, get_size_mono,
  max_bytes_largest,
}
use my_memory_pool.V2.SizeClass.{search, get_index}

-- What the search answers: the number of classes that are too small.
record Found (bytes r : ℕ) : Type 0 where
  pub bounded : r ≤ 56
  pub below : (j : ℕ) → j < r → get_size j < bytes
  pub enough : r < 56 → bytes ≤ get_size r

search-Found :
    (fuel lo hi bytes : ℕ)
    → lo ≤ hi
    → hi ≤ 56
    → hi ≤ lo + fuel
    → ((j : ℕ) → j < lo → get_size j < bytes)
    → ((j : ℕ) → hi ≤ j → j < 56 → bytes ≤ get_size j)
    → Found bytes (search fuel lo hi bytes)
unfolding search
search-Found zero lo hi bytes le top fuel_enough below above = record {
  bounded = omega arith;
  below = below;
  enough = λ h. above lo (omega arith) h;
}
search-Found (suc fuel) lo hi bytes le top fuel_enough below above = elim (Bool-cases (ltb lo hi)) [
  | inl more ↦
      let mid : ℕ = (lo + hi) / 2 in
      let inside : mid < hi = ground arith in
      elim (Bool-cases (ltb (get_size ((lo + hi) / 2)) bytes)) [
        | inl small ↦
            rw (more, get_size_same ((lo + hi) / 2), small)
              (search-Found fuel ((lo + hi) / 2 + 1) hi bytes (ground arith) top (ground arith)
                (λ j h. lower j h (ground arith) (ground arith)) above)
        | inr large ↦
            rw (more, get_size_same ((lo + hi) / 2), large)
              (search-Found fuel lo ((lo + hi) / 2) bytes (omega arith) (ground arith)
                (ground arith) below (λ j h lt. upper j h lt (ground arith)))
      ]
  | inr done ↦
      rw done
        (record { bounded = omega arith; below = below; enough = λ h. above lo (ground arith) h })
]
  where
    lower :
        (j : ℕ)
        → j < (lo + hi) / 2 + 1
        → get_size ((lo + hi) / 2) < bytes
        → (lo + hi) / 2 < 56
        → get_size j < bytes
    lower j h small lt = elim (dec_lt j ((lo + hi) / 2)) [
      | yes before ↦ omega (arith, get_size_mono j ((lo + hi) / 2) before lt)
      | no at ↦ let e : j ≡ (lo + hi) / 2 = omega arith in rw e small
    ]

    upper :
        (j : ℕ) → (lo + hi) / 2 ≤ j → j < 56 → bytes ≤ get_size ((lo + hi) / 2) → bytes ≤ get_size j
    upper j h lt large = elim (dec_lt ((lo + hi) / 2) j) [
      | yes behind ↦ omega (arith, get_size_mono ((lo + hi) / 2) j behind lt)
      | no at ↦ let e : j ≡ (lo + hi) / 2 = omega arith in rw e large
    ]

top_size : get_size 55 ≡ max_bytes
top_size = sym (get_size-size_at 55) ∙ last_size

searched : (bytes : ℕ) → Found bytes (search 56 0 56 bytes)
searched bytes =
    search-Found 56 0 56 bytes (omega arith) (omega arith) (omega arith)
      (λ j h. absurd (omega arith)) (λ j h lt. absurd (omega arith))

get_index-search : (bytes : ℕ) → 256 < bytes → get_index bytes ≡ search 56 0 56 bytes
unfolding get_index
get_index-search bytes h =
    let big : leb bytes 256 ≡ false = ground arith in
    let e : max bytes alignment ≡ bytes = omega arith in rw (big, free_list_size_lem, e) refl

-- For every request, above MAX_BYTES too, `getIndex` of version 2 and of version 3 choose the same
-- class.
pub search-get_index : (bytes : ℕ) → get_index bytes ≡ SizeClass.get_index bytes
search-get_index bytes = elim (Bool-cases (leb bytes 256)) [
  | inl small ↦ unfold get_index in unfold SizeClass.get_index in rw (small, small_map_same) refl
  | inr big ↦
      let more : 256 < bytes = ground arith in
      let f = searched bytes in
      let r : ℕ = search 56 0 56 bytes in
      get_index-search bytes more ∙ (elim (dec_lt max_bytes bytes) [
        | yes over ↦ omega (
          arith,
          f.bounded,
          all_small bytes over f,
          get_index_above bytes over,
          Laws.free_list_size_lem,
        )
        | no fits ↦
            let (_, holds, least) = get_index_least bytes (omega arith) (omega arith) in
            least_unique bytes r (SizeClass.get_index bytes)
              (f.enough (in_table bytes (omega arith) f)) holds f.below least
      ])
]
  where
    all_small : (b : ℕ) → max_bytes < b → Found b (search 56 0 56 b) → 56 ≤ search 56 0 56 b
    all_small b over f = elim (dec_lt (search 56 0 56 b) 56) [
      | yes lt ↦ absurd (omega (arith, f.enough lt, max_bytes_largest (search 56 0 56 b) lt))
      | no ge ↦ omega arith
    ]

    in_table : (b : ℕ) → b ≤ max_bytes → Found b (search 56 0 56 b) → search 56 0 56 b < 56
    in_table b le f = elim (dec_lt 55 (search 56 0 56 b)) [
      | yes lt ↦ absurd (omega (arith, f.below 55 lt, top_size))
      | no ge ↦ omega arith
    ]

zero_class : ltb (SizeClass.get_index 0) 56 ≡ true
unfolding SizeClass.get_index SizeClass.make_small_index_map SizeClass.fill_map SizeClass.advance
    SizeClass.size_class_table
zero_class = refl

pub small_class : (size : ℕ) → size ≤ max_bytes → get_index size < 56
small_class zero le = rw (search-get_index 0) (ltb→lt _ _ zero_class)
small_class (suc n) le = omega (
  arith,
  search-get_index (suc n),
  (get_index_least (suc n) (omega arith) le).0,
  Laws.free_list_size_lem,
)
