-- ===== src/V1/HashBucket.antt =====
-- The class `HashBucket` of version 1: 64 pools by slot size, and `operator new` above 512 bytes.
use my_memory_pool.Prelude.{
  Ptr, null, Bool, ℕ, zero, suc, ◌+◌, ◌-◌, ◌*◌, ◌/◌, ◌≤◌, ◌<◌, ◌≡◌, refl, arith, ltb, ◌==◌,
  if◌then◌else◌, ==_refl,
}
use native.Mathlib.Decide.{dec_lt}
use my_memory_pool.V1.Pool.{MemoryPool, Heap, memory_pool}
use my_memory_pool.V1.Pool

abbrev pub memory_pool_num : ℕ
memory_pool_num = 64

abbrev pub slot_base_size : ℕ
slot_base_size = 8

abbrev pub max_slot_size : ℕ
max_slot_size = 512

-- the static array, and the memory that the pools write
pub record Buckets : Type 0 where
  pub next : Ptr → Ptr
  pub pools : ℕ → MemoryPool

abbrev pub set_pool : (ℕ → MemoryPool) → ℕ → MemoryPool → ℕ → MemoryPool
set_pool pools i p j = if i == j then p else pools j

-- The loop of `initMemoryPool` with `left` pools to go.
unfoldable pub init_from : (left i : ℕ) → (ℕ → MemoryPool) → ℕ → MemoryPool
init_from zero i pools = pools
init_from (suc left) i pools =
    init_from left (i + 1) (set_pool pools i (Pool.init (pools i) ((i + 1) * slot_base_size)))

unfoldable pub init_memory_pool : Buckets → Buckets
unfolding init_from
init_memory_pool b = record b { pools = init_from memory_pool_num 0 b.pools }

-- size / 8, rounded up, less one
abbrev pub bucket_index : ℕ → ℕ
bucket_index size = (size + 7) / slot_base_size - 1

-- `fresh` is what `operator new` returns if it is called.
unfoldable pub use_memory : (fresh : Ptr) → ℕ → Buckets → Ptr × Buckets
use_memory fresh size b =
    let i = bucket_index size in
    let (slot, h) = Pool.allocate fresh (record { next = b.next; pool = b.pools i }) in
    if size == 0
    then (null, b)
    else if ltb max_slot_size size
    then (fresh, b)
    else (slot, record { next = h.next; pools = set_pool b.pools i h.pool })

-- A null pointer is ignored; above 512 bytes `operator delete` takes it, which the buckets do not
-- see.
unfoldable pub free_memory : Ptr → ℕ → Buckets → Buckets
free_memory ptr size b =
    let i = bucket_index size in
    let h = Pool.deallocate ptr (record { next = b.next; pool = b.pools i }) in
    if ptr == null
    then b
    else if ltb max_slot_size size
    then b
    else record { next = h.next; pools = set_pool b.pools i h.pool }

-- How a call of `newElement` ends: the object's address, or the exception of its constructor.
pub data Construction : Type 0 where
  constructed : Ptr → Construction
  thrown : Construction

-- `newElement<T>` for a type of the given size; `throws` says whether its constructor throws.
unfoldable pub new_element :
    (fresh : Ptr) → (size : ℕ) (throws : Bool) → Buckets → Construction × Buckets
new_element fresh size throws b =
    let (p, b') = use_memory fresh size b in
    if p == null
    then (constructed null, b')
    else if throws
    then (thrown, b')
    else (constructed p, b')

unfoldable pub delete_element : Ptr → ℕ → Buckets → Buckets
delete_element p size b = if p == null then b else free_memory p size b

-- The loop leaves the pools behind it alone.
init_from_before :
    (left i j : ℕ) (pools : ℕ → MemoryPool) → j < i → init_from left i pools j ≡ pools j
unfolding init_from
init_from_before zero i j pools h = refl
init_from_before (suc left) i j pools h = ground (
  arith,
  init_from_before left (i + 1) j
      (set_pool pools i (Pool.init (pools i) ((i + 1) * slot_base_size))) (omega arith),
)

init_from-slot_size :
    (left i j : ℕ) (pools : ℕ → MemoryPool)
    → i ≤ j
    → j < i + left
    → (init_from left i pools j).slot_size ≡ (j + 1) * slot_base_size
unfolding init_from Pool.init
init_from-slot_size zero i j pools lo hi = absurd (omega arith)
init_from-slot_size (suc left) i j pools lo hi =
    let pools' = set_pool pools i (Pool.init (pools i) ((i + 1) * slot_base_size)) in
    elim (dec_lt i j) [
      | yes h ↦ init_from-slot_size left (i + 1) j pools' (omega arith) (omega arith)
      | no h ↦
          let here : i ≡ j = omega arith in
          rw (← here) (rw (init_from_before left (i + 1) i pools' (omega arith), ==_refl i) refl)
    ]

-- After `initMemoryPool` a request of 1 to 512 bytes goes to one of the 64 pools, whose slots
-- hold it with less than 8 bytes to spare.
pub bucket_fits :
    (b : Buckets) (size : ℕ)
    → 0 < size
    → size ≤ max_slot_size
    → (bucket_index size < memory_pool_num)
      × (size ≤ ((init_memory_pool b).pools (bucket_index size)).slot_size)
      × (((init_memory_pool b).pools (bucket_index size)).slot_size < size + 8)
unfolding init_memory_pool
bucket_fits b size pos le =
    let e = init_from-slot_size 64 0 (bucket_index size) b.pools (omega arith) (omega arith) in
    (omega arith, omega (arith, e), omega (arith, e))
