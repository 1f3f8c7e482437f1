-- ===== src/V2/SizeTable.antt =====
-- `v2/include/Common.h`: the table of size classes and the map for small sizes, which are computed
-- when the program is compiled, and `getSize`.
pub mod Laws
use my_memory_pool.Prelude.{
  ℕ, zero, suc, ◌+◌, ◌*◌, ◌%◌, ◌&&◌, List, [], ◌∷◌, ltb, leb, ◌==◌, if◌then◌else◌, get_or, set,
  replicate,
}

abbrev pub alignment : ℕ
alignment = 8

abbrev pub max_bytes : ℕ
max_bytes = 256 * 1024

abbrev pub max_size_classes : ℕ
max_size_classes = 64

pub record SizeClassTable : Type 0 where
  pub sizes : List ℕ
  pub count : ℕ

abbrev no_classes : SizeClassTable
no_classes = record { sizes = replicate max_size_classes 0; count = 0 }

-- The loop of `makeSizeClassTable`; `left` is kMaxSizeClasses - count.
unfoldable pub fill_table : (left align size : ℕ) → SizeClassTable → SizeClassTable
fill_table zero align size table = table
fill_table (suc left) align size table =
    let next = size + align in
    let added = record table {
      sizes = set table.sizes table.count next;
      count = table.count + 1;
    } in
    let rest = fill_table left (if leb (align * 8) next then align * 2 else align) next added in
    if ltb max_bytes next then table else rest

unfoldable pub size_class_table : SizeClassTable
unfolding fill_table
size_class_table = fill_table max_size_classes alignment 0 no_classes

-- FREE_LIST_SIZE
unfoldable pub free_list_size : ℕ
unfolding size_class_table
free_list_size = size_class_table.count

-- The inner loop of `makeSmallIndexMap`, on to a class that is large enough, or the last.
unfoldable pub advance : (fuel bytes index : ℕ) → ℕ
unfolding size_class_table
advance zero bytes index = index
advance (suc fuel) bytes index =
    let next = advance fuel bytes (index + 1) in
    if ltb (index + 1) size_class_table.count && ltb (get_or size_class_table.sizes index 0) bytes
    then next
    else index

-- The outer loop from entry `n` on; the cast is to uint8_t.
unfoldable pub fill_map : (left n index : ℕ) → List ℕ
unfolding advance
fill_map zero n index = []
fill_map (suc left) n index =
    let found = advance size_class_table.count (if n == 0 then alignment else n) index in
    (found % 256) ∷ fill_map left (n + 1) found

unfoldable pub make_small_index_map : List ℕ
unfolding fill_map
make_small_index_map = fill_map 257 0 0

-- A read past the array would be undefined; no caller makes one.
unfoldable pub get_size : ℕ → ℕ
unfolding size_class_table
get_size index = get_or size_class_table.sizes index 0
