-- ===== src/Util.antt =====
-- Caches of corpochain/util.
pub mod LruCache
