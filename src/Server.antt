-- ===== src/Server.antt =====
-- The network server: corpochain/server.
pub mod RateLimits
