-- ===== src/V2.antt =====
-- Version 2 of the pool (`v2/`), layer by layer.
pub mod SizeTable
pub mod SizeClass
pub mod World
pub mod PageCache
pub mod CentralCache
pub mod ThreadCache
pub mod MemoryPool
mod Sample
mod Tests
