-- ===== src/Fs.antt =====
-- The external flash, Sources/Fs.
pub mod FlashInfo
pub mod Flash
pub mod Superblock
pub mod NorFs
pub mod Setup
