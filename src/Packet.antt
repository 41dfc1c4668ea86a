-- ===== src/Packet.antt =====
-- Sources/Packet: buffering of received packets, and scheduling of packets for transmission.
pub mod Buffers
pub mod Store
pub mod Ledger
pub mod Invariant
pub mod Tx
pub mod Rx
