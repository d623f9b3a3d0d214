-- ===== src/Client.antt =====
-- The client's operations on an open file (src/xrdclient/client).
pub mod Vector
pub mod Writing
