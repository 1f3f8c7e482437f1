-- ===== src/V3/SizeClass.antt =====
-- `v3/src/Common.h`: the size-class table, the two index maps that are computed from it when the
-- program is compiled, and the class `SizeClass`.
pub mod Fit
pub mod Laws
pub mod Alignment
use my_memory_pool.Prelude.{
  ℕ, zero, suc, ◌+◌, ◌-◌, ◌*◌, ◌/◌, ◌%◌, ◌^◌, bit_and, Bool, ◌&&◌, List, [], ◌∷◌, ltb, leb, ◌==◌,
  if◌then◌else◌, get_or, set, replicate, size_max,
}

abbrev pub alignment : ℕ
alignment = 8

abbrev pub max_bytes : ℕ
max_bytes = 256 * 1024

abbrev pub max_size_classes : ℕ
max_size_classes = 64

pub record SizeClassTable : Type 0 where
  pub sizes : List ℕ
  pub count : ℕ

-- The loop of `makeSizeClassTable`, with `left` = kMaxSizeClasses - count rounds to go.
pub fill_table : (left align size : ℕ) → SizeClassTable → SizeClassTable
fill_table zero align size table = table
fill_table (suc left) align size table =
    let size' = size + align in
    let table' = record table {
      sizes = set table.sizes table.count size';
      count = table.count + 1;
    } in
    let rest = fill_table left (if leb (align * 8) size' then align * 2 else align) size' table' in
    if ltb max_bytes size' then table else rest

pub make_size_class_table : SizeClassTable
unfolding fill_table
make_size_class_table =
    fill_table max_size_classes alignment 0
      (record { sizes = replicate max_size_classes 0; count = 0 })

unfoldable pub size_class_table : SizeClassTable
unfolding make_size_class_table
size_class_table = make_size_class_table

-- FREE_LIST_SIZE, the number of classes
unfoldable pub free_list_size : ℕ
unfolding size_class_table
free_list_size = size_class_table.count

-- The inner loop of both maps: on to the first class that is large enough, or the last.
unfoldable pub advance : SizeClassTable → (fuel bytes index : ℕ) → ℕ
advance t zero bytes index = index
advance t (suc fuel) bytes index =
    let next = advance t fuel bytes (index + 1) in
    if ltb (index + 1) t.count && ltb (get_or t.sizes index 0) bytes then next else index

-- The outer loop from entry `n` on: `bytes` is what an entry stands for, the cast is to uint8_t.
unfoldable pub fill_map : SizeClassTable → (bytes : ℕ → ℕ) → (left n index : ℕ) → List ℕ
fill_map t bytes zero n index = []
fill_map t bytes (suc left) n index =
    let index' = advance t t.count (bytes n) index in
    (index' % 256) ∷ fill_map t bytes left (n + 1) index'

abbrev pub small_bytes : ℕ → ℕ
small_bytes n = if n == 0 then alignment else n

abbrev pub unit_bytes : ℕ → ℕ
unit_bytes unit = if unit == 0 then alignment else unit * alignment

unfoldable pub make_small_index_map : List ℕ
make_small_index_map = fill_map size_class_table small_bytes 257 0 0

abbrev pub index_map_entries : ℕ
index_map_entries = max_bytes / alignment + 1

unfoldable pub make_index_map : List ℕ
make_index_map = fill_map size_class_table unit_bytes index_map_entries 0 0

-- A read past the array would be undefined; no caller makes one.
unfoldable pub get_size : ℕ → ℕ
unfolding size_class_table
get_size index = get_or size_class_table.sizes index 0

unfoldable pub get_index : ℕ → ℕ
get_index bytes =
    if leb bytes 256
    then get_or make_small_index_map bytes 0
    else if ltb max_bytes bytes
    then free_list_size
    else get_or make_index_map ((bytes + alignment - 1) / alignment) 0

unfoldable pub round_up : ℕ → ℕ
round_up bytes =
    if ltb max_bytes bytes
    then bit_and ((bytes + alignment - 1) % 2 ^ 64) (size_max - (alignment - 1))
    else get_size (get_index bytes)
