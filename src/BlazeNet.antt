-- ===== src/BlazeNet.antt =====
-- The network layer, Sources/BlazeNet.
pub mod Beacon
