-- ===== src/Lru.antt =====
-- lib/lru: the cache of a bounded number of entries.
pub mod Recency
pub mod Ring
pub mod Relink
pub mod Cache
