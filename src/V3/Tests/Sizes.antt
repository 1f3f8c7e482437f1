-- ===== src/V3/Tests/Sizes.antt =====
-- The size classes at concrete sizes.
use my_memory_pool.Prelude.{ℕ, ◌+◌, ◌/◌, ◌%◌, ◌<◌, ◌≤◌, ◌≡◌, arith, max}
use my_memory_pool.V3.SizeClass.{free_list_size, get_index, get_size, round_up}
use my_memory_pool.V3.SizeClass.Laws.{get_index_least, round_up_small}

get_index_least_example :
    (get_index 1000 < free_list_size)
    × (1000 ≤ get_size (get_index 1000))
    × ((j : ℕ) → j < get_index 1000 → get_size j < 1000)
get_index_least_example = get_index_least 1000 (omega arith) (omega arith)

round_up_small_example :
    (1000 ≤ round_up 1000)
    × (round_up 1000 % 8 ≡ 0)
    × (round_up 1000 < 1000 + max 8 (1000 / 4))
    × (get_index (round_up 1000) ≡ get_index 1000)
round_up_small_example = round_up_small 1000 (omega arith) (omega arith)
