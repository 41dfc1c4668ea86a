-- ===== src/Crypto.antt =====
-- The security engine, Sources/Crypto.
pub mod Context
