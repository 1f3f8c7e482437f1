-- ===== src/V2/SizeTable/Laws.antt =====
-- The table of version 2 is that of version 3, and so are the laws of its classes.
use my_memory_pool.Prelude.{ℕ, ◌%◌, ◌<◌, ◌≡◌, refl}
use my_memory_pool.V3.SizeClass
use my_memory_pool.V3.SizeClass.Laws
use my_memory_pool.V2.SizeTable.{size_class_table, free_list_size, make_small_index_map, get_size}

pub sizes_same : size_class_table.sizes ≡ SizeClass.size_class_table.sizes
unfolding size_class_table SizeClass.size_class_table
sizes_same = refl

pub small_map_same : make_small_index_map ≡ SizeClass.make_small_index_map
unfolding make_small_index_map SizeClass.make_small_index_map SizeClass.fill_map SizeClass.advance
    SizeClass.size_class_table
small_map_same = refl

pub free_list_size_lem : free_list_size ≡ 56
unfolding free_list_size
free_list_size_lem = refl

pub get_size_same : (i : ℕ) → get_size i ≡ SizeClass.get_size i
unfolding get_size SizeClass.get_size
get_size_same i = refl

pub get_size_multiple : (i : ℕ) → i < 56 → (get_size i % 8 ≡ 0) × (0 < get_size i)
get_size_multiple i h = rw (get_size_same i) (Laws.get_size_multiple i h)
