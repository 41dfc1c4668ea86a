-- ===== src/HostIf.antt =====
-- The host interface, Sources/HostIf.
pub mod Interrupt
pub mod Irq
pub mod Watchdog
pub mod Handlers
pub mod Task
