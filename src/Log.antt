-- ===== src/Log.antt =====
-- Log messages, Sources/Log.
pub mod Logger
