-- ===== src/V2/SizeClass.antt =====
-- The class `SizeClass` of `v2/include/Common.h`: `getIndex` searches the table by halving.
pub mod Agreement
use my_memory_pool.Prelude.{
  ℕ, zero, suc, ◌+◌, ◌/◌, ◌-◌, ◌%◌, ◌^◌, max, bit_and, leb, ltb, if◌then◌else◌, get_or, size_max,
}
use my_memory_pool.V2.SizeTable.{
  alignment, max_bytes, free_list_size, get_size, make_small_index_map,
}

-- The loop of `getIndex`; each round halves what is left, so one round for each class is enough.
unfoldable pub search : (fuel lo hi bytes : ℕ) → ℕ
search zero lo hi bytes = lo
search (suc fuel) lo hi bytes =
    let mid = (lo + hi) / 2 in
    let small = ltb (get_size mid) bytes in
    let rest = search fuel (if small then mid + 1 else lo) (if small then hi else mid) bytes in
    if ltb lo hi then rest else lo

unfoldable pub get_index : ℕ → ℕ
get_index bytes =
    if leb bytes 256
    then get_or make_small_index_map bytes 0
    else search free_list_size 0 free_list_size (max bytes alignment)

unfoldable pub round_up : ℕ → ℕ
round_up bytes =
    if ltb max_bytes bytes
    then bit_and ((bytes + alignment - 1) % 2 ^ 64) (size_max - (alignment - 1))
    else get_size (get_index bytes)
