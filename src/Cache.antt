-- ===== src/Cache.antt =====
-- The request caches: lib/catalogCache.js, lib/manifestCache.js and lib/changesCache.js. All three
-- keep a bounded map in insertion order (Lru) and a map of the requests under way.
pub mod Lru
pub mod Catalog
pub mod Manifest
pub mod Changes
mod Tests
