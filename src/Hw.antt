-- ===== src/Hw.antt =====
-- The hardware helpers, Sources/Hw.
pub mod Animations
pub mod Identity
pub mod Indicators
