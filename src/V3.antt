-- ===== src/V3.antt =====
-- Version 3 of the pool (`v3/`): the three layers, the API in front of them, and the size classes
-- that they share.
pub mod SizeClass
pub mod SpinLock
pub mod World
pub mod PageCache
pub mod CentralCache
pub mod Counters
pub mod ThreadCache
pub mod MemoryPool
mod Sample
mod Tests
