-- ===== src/Radio.antt =====
-- Sources/Radio: the radio task, over the RAIL library.
pub mod Transmit
pub mod Task
pub mod Setup
