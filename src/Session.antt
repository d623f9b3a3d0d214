-- ===== src/Session.antt =====
-- The session layer (session): what stands between a client and its connections.
pub mod Pool
pub mod Text
pub mod Rewrite
