-- ===== src/Keypool.antt =====
-- internal/keypool: which API key serves a request.
pub mod Key
pub mod Selector
pub mod Pool
