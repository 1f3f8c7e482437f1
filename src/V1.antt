-- ===== src/V1.antt =====
-- Version 1 of the pool (`v1/`): pools of one slot size, their lock-free list, and the table of
-- pools by size.
pub mod Pool
pub mod HashBucket
pub mod FreeList
mod Tests
