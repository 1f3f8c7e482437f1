-- ===== src/V3/SizeClass/Laws.antt =====
-- What `SizeClass` promises: the least class that holds the request.
use my_memory_pool.Prelude.{
  ℕ, zero, suc, ◌+◌, ◌-◌, ◌*◌, ◌/◌, ◌%◌, ◌≤◌, ◌<◌, ◌≡◌, refl, inl, inr, true, false, ◌&&◌, arith,
  ltb, leb, ◌==◌, get_or, Bool-cases, ltb→lt, subst, leb→le, max,
}
use native.Mathlib.Decide.{dec_lt}
use my_memory_pool.Prelude.Check.{every, every_sound}
use my_memory_pool.V3.SizeClass.{
  max_bytes, size_class_table, free_list_size, advance, small_bytes, unit_bytes,
  make_small_index_map, make_index_map, index_map_entries, get_size, get_index, round_up,
}
use my_memory_pool.V3.SizeClass.Fit.{Fits, size_at, fill_map-Fits_after_zero}

pub count_lem : size_class_table.count ≡ 56
unfolding size_class_table
count_lem = refl

pub free_list_size_lem : free_list_size ≡ 56
unfolding free_list_size
free_list_size_lem = refl

pub last_size : size_at size_class_table 55 ≡ max_bytes
unfolding size_class_table
last_size = refl

sizes_checked : every 56 (λ i. (get_size i % 8 == 0) && ltb 0 (get_size i)) ≡ true
unfolding every get_size
sizes_checked = refl

-- Every class is a positive multiple of 8 bytes.
pub get_size_multiple : (i : ℕ) → i < 56 → (get_size i % 8 ≡ 0) × (0 < get_size i)
get_size_multiple i h =
    ground
      (arith, every_sound 56 (λ i. (get_size i % 8 == 0) && ltb 0 (get_size i)) i sizes_checked h)

ascending_checked : every 55 (λ i. ltb (get_size i) (get_size (i + 1))) ≡ true
unfolding every get_size
ascending_checked = refl

pub get_size_ascending : (i : ℕ) → i < 55 → get_size i < get_size (i + 1)
get_size_ascending i h =
    ltb→lt _ _ (every_sound 55 (λ i. ltb (get_size i) (get_size (i + 1))) i ascending_checked h)

pub get_size-size_at : (i : ℕ) → size_at size_class_table i ≡ get_size i
unfolding get_size
get_size-size_at i = refl

starts_at_zero : advance size_class_table size_class_table.count 8 0 ≡ 0
unfolding size_class_table advance
starts_at_zero = refl

small_map :
    (i : ℕ)
    → i < 256
    → Fits size_class_table (small_bytes (1 + i)) (get_or make_small_index_map (suc i) 0)
unfolding make_small_index_map
small_map i h =
    fill_map-Fits_after_zero size_class_table small_bytes (λ n pos. ground arith)
      (omega (arith, count_lem)) 256 i h (omega (arith, count_lem)) starts_at_zero

unit_map :
    (i : ℕ)
    → i < index_map_entries - 1
    → Fits size_class_table (unit_bytes (1 + i)) (get_or make_index_map (suc i) 0)
unfolding make_index_map
unit_map i h =
    fill_map-Fits_after_zero size_class_table unit_bytes (λ n pos. ground arith)
      (omega (arith, count_lem)) 32768 i h (omega (arith, count_lem)) starts_at_zero

-- A class that fits the request rounded up to 8 bytes fits the request: sizes are multiples of 8.
Fits-round :
    (bytes i : ℕ)
    → 0 < bytes
    → Fits size_class_table ((bytes + 7) / 8 * 8) i
    → Fits size_class_table bytes i
Fits-round bytes i pos f = record {
  in_table = f.in_table;
  below = λ j h. omega (
    arith,
    f.below j h,
    f.in_table,
    count_lem,
    get_size-size_at j,
    (get_size_multiple j (omega (arith, f.in_table, count_lem))).0,
  );
  enough = λ h. omega (arith, f.enough h);
}

-- `getIndex` finds the least class that holds a request of at most MAX_BYTES.
get_index-Fits :
    (bytes : ℕ) → 0 < bytes → bytes ≤ max_bytes → Fits size_class_table bytes (get_index bytes)
unfolding get_index
get_index-Fits zero pos h = absurd (omega arith)
get_index-Fits (suc b) pos h = elim (Bool-cases (leb (suc b) 256)) [
  | inl small ↦
      let e : small_bytes (1 + b) ≡ suc b = ground arith in
      rw small (
        subst (λ n. Fits size_class_table n (get_or make_small_index_map (suc b) 0)) e
          (small_map b (ground arith)))
  | inr big ↦
      let fits : ltb max_bytes (suc b) ≡ false = ground arith in
      let unit : (suc b + 8 - 1) / 8 ≡ suc (b / 8) = omega arith in
      let e : unit_bytes (1 + b / 8) ≡ (suc b + 7) / 8 * 8 = ground arith in
      rw (big, fits, unit)
        (Fits-round (suc b) _ pos (
          subst (λ n. Fits size_class_table n (get_or make_index_map (suc (b / 8)) 0)) e
            (unit_map (b / 8) (omega arith))))
]

-- A request of 1 to MAX_BYTES bytes gets an index of the table whose class holds it, and every
-- class before that one is too small.
pub get_index_least :
    (bytes : ℕ)
    → 0 < bytes
    → bytes ≤ max_bytes
    → (get_index bytes < free_list_size)
      × (bytes ≤ get_size (get_index bytes))
      × ((j : ℕ) → j < get_index bytes → get_size j < bytes)
get_index_least bytes pos h =
    let f = get_index-Fits bytes pos h in
    (
      omega (arith, f.in_table, count_lem, free_list_size_lem),
      holds (get_index bytes) f,
      λ j p. omega (arith, f.below j p, get_size-size_at j),
    )
  where
    holds : (i : ℕ) → Fits size_class_table bytes i → bytes ≤ get_size i
    holds i f = elim (dec_lt (i + 1) 56) [
      | yes p ↦ omega (arith, f.enough (omega (arith, count_lem)), get_size-size_at i)
      | no p ↦
          let e : i ≡ 55 = omega (arith, f.in_table, count_lem) in
          rw e (omega (arith, last_size, get_size-size_at 55))
    ]

-- A request above MAX_BYTES gets FREE_LIST_SIZE, which is no class.
pub get_index_above : (bytes : ℕ) → max_bytes < bytes → get_index bytes ≡ free_list_size
unfolding get_index
get_index_above bytes h = ground arith

-- The index is determined by being the least class that holds the request.
pub least_unique :
    (bytes i j : ℕ)
    → bytes ≤ get_size i
    → bytes ≤ get_size j
    → ((k : ℕ) → k < i → get_size k < bytes)
    → ((k : ℕ) → k < j → get_size k < bytes)
    → i ≡ j
least_unique bytes i j hi hj below_i below_j = elim (dec_lt i j) [
  | yes p ↦ absurd (omega (arith, below_j i p))
  | no p ↦ elim (dec_lt j i) [ yes q ↦ absurd (omega (arith, below_i j q)) | no q ↦ omega arith ]
]

gaps_checked : every 55 (λ i. leb (get_size (i + 1) - get_size i) (max 8 (get_size i / 4))) ≡ true
unfolding every get_size
gaps_checked = refl

gap_le : (i : ℕ) → i < 55 → get_size (i + 1) ≤ get_size i + max 8 (get_size i / 4)
gap_le i h = omega (
  arith,
  leb→le _ _ (
      every_sound 55 (λ i. leb (get_size (i + 1) - get_size i) (max 8 (get_size i / 4))) i
        gaps_checked h),
)

first_size : get_size 0 ≡ 8
unfolding get_size
first_size = refl

round_up-get_size : (bytes : ℕ) → bytes ≤ max_bytes → round_up bytes ≡ get_size (get_index bytes)
unfolding round_up
round_up-get_size bytes h = ground arith

pub get_size_mono : (k i : ℕ) → k < i → i < 56 → get_size k < get_size i
get_size_mono k zero p h = absurd (omega arith)
get_size_mono k (suc i) p h =
    let step : get_size i < get_size (suc i) =
      let e : suc i ≡ i + 1 = omega arith in rw e (get_size_ascending i (omega arith)) in
    elim (dec_lt k i) [
      | yes q ↦ omega (arith, get_size_mono k i q (omega arith))
      | no q ↦ let e : k ≡ i = omega arith in rw e step
    ]

-- No class is larger than MAX_BYTES.
pub max_bytes_largest : (i : ℕ) → i < 56 → get_size i ≤ max_bytes
max_bytes_largest i h = elim (dec_lt i 55) [
  | yes p ↦ omega (arith, get_size_mono i 55 p (omega arith), last_size, get_size-size_at 55)
  | no p ↦ let e : i ≡ 55 = omega arith in rw e (omega (arith, last_size, get_size-size_at 55))
]

-- `getIndex` of the size of each of the 56 classes is that class.
pub get_index-get_size : (i : ℕ) → i < 56 → get_index (get_size i) ≡ i
get_index-get_size i h =
    let least = get_index_least (get_size i) (get_size_multiple i h).1 (max_bytes_largest i h) in
    least_unique (get_size i) (get_index (get_size i)) i least.1 (omega arith) least.2
      λ k p. get_size_mono k i p h

-- The waste of the class `i` for a request that no smaller class holds.
waste_small :
    (bytes i : ℕ)
    → 0 < bytes
    → i < 56
    → ((j : ℕ) → j < i → get_size j < bytes)
    → get_size i < bytes + max 8 (bytes / 4)
waste_small bytes zero pos h below = omega (arith, first_size)
waste_small bytes (suc i) pos h below =
    let e : suc i ≡ i + 1 = omega arith in
    rw e (omega (arith, gap_le i (omega arith), below i (omega arith)))

-- Rounding a request of 1 to MAX_BYTES bytes up to its class gives a multiple of 8 that holds it,
-- wastes less than 8 bytes or less than a quarter of the request, and stays in the same class.
pub round_up_small :
    (bytes : ℕ)
    → 0 < bytes
    → bytes ≤ max_bytes
    → (bytes ≤ round_up bytes)
      × (round_up bytes % 8 ≡ 0)
      × (round_up bytes < bytes + max 8 (bytes / 4))
      × (get_index (round_up bytes) ≡ get_index bytes)
round_up_small bytes pos h =
    let least = get_index_least bytes pos h in
    let lt : get_index bytes < 56 = omega (arith, least.0, free_list_size_lem) in
    rw (round_up-get_size bytes h) (
      least.1,
      (get_size_multiple (get_index bytes) lt).0,
      waste_small bytes (get_index bytes) pos lt least.2,
      get_index-get_size (get_index bytes) lt,
    )
