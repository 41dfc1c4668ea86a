-- ===== src/Fs/Setup.antt =====
-- Sources/Fs/Init.cpp: finding the flash, and formatting it or mounting its file system.
--
-- The state is the trace of the flash driver and the log of malloc and SPIFFS. What the chip sends
-- is a function of the trace. NVIC_SystemReset ends the run, which `resets` stands for.
pub mod Blank
pub mod Choice
pub mod FirstBoot
pub mod SecondBoot
use blazenet_device_fw.Prelude.{
  ℕ, Bool, true, false, Option, none, some, List, [], get_or, ◌==◌, if◌then◌else◌, not, is_err,
  Outcome, ok, panic, ◌>>=◌, ◌>>◌, require, deref,
}
use blazenet_device_fw.Fs.FlashInfo.{FlashInfo, identify_flash}
use blazenet_device_fw.Fs.Flash.{
  Error, no_error, Trace, Bus, identify, read, write, erase_chip, reset,
}
use blazenet_device_fw.Fs.Superblock.{
  Superblock, super_size, type_spiffs, to_bytes, of_bytes, init_superblock, is_empty, validate,
  is_valid,
}
use blazenet_device_fw.Fs.NorFs.{Log, Services, record_allocated, free, mount, format}

pub record Board : Type 0 where
  pub bus : Bus
  -- the bytes that the newest transfer read
  pub bytes_read : Trace → List ℕ
  -- Util::Crc32
  pub crc32 : List ℕ → ℕ
  pub services : Services

abbrev pub FsState : Type 0
FsState = Trace × Log

-- How Fs::Init ends, if it does not panic.
pub data Started : Type 0 where
  mounted resets : Started

unfoldable pub succeeded : Error → Bool
succeeded Error.no_error = true
succeeded Error.unaligned_size = false
succeeded Error.timeout = false
succeeded Error.io_command = false
succeeded Error.io_payload = false
succeeded Error.unaligned_address = false
succeeded Error.page_write_too_big = false
succeeded Error.invalid_arguments = false

-- FormatNor
unfoldable pub format_nor : ℕ → Board → FlashInfo → FsState → Outcome FsState
format_nor fuel board info (t, l) = do
  (err, t1) ← erase_chip fuel board.bus info t
  require (succeeded err)
  let super = init_superblock board.crc32 info
  (err, t2) ← write fuel board.bus info 0 (to_bytes super) t1
  require (succeeded err)
  (err, l1) ← format board.services info super l
  require (not (is_err err))
  ok (t2, l1)

-- Init once the superblock's bytes are read and not empty; `p` is the memory that they are in.
unfoldable pub mount_nor : Board → FlashInfo → ℕ → List ℕ → FsState → Outcome FsState
mount_nor board info p bytes (t, l) =
    let super = of_bytes bytes in
    do
      require (is_valid (validate board.crc32 bytes))
      require (super.fs_type == type_spiffs)
      (err, l1) ← mount board.services info super l
      require (not (is_err err))
      l2 ← free (some p) l1
      ok (t, l2)

-- Init after the allocation of the superblock.
unfoldable pub start : ℕ → Board → FlashInfo → Option ℕ → FsState → Outcome (Started × FsState)
start fuel board info none s = panic
start fuel board info (some p) (t, l) =
    let (err, t1) = read board.bus info 0 super_size t in
    let bytes = board.bytes_read t1 in
    let first_boot = (do s ← format_nor fuel board info (t1, l); ok (resets, s)) in
    let boot = (do s ← mount_nor board info p bytes (t1, l); ok (mounted, s)) in
    require (succeeded err) >> (if is_empty bytes then first_boot else boot)

-- Init once the chip is known; `flash` is the memory of the driver, which its constructor writes.
unfoldable pub start_flash :
    ℕ → Board → FlashInfo → Option ℕ → FsState → Outcome (Started × FsState)
start_flash fuel board info none s = Outcome.fault
start_flash fuel board info (some flash) (t, l) = do
  (err, t1) ← reset board.bus info t
  require (succeeded err)
  let memory = board.services.malloc l super_size
  start fuel board info memory (t1, record_allocated memory l)

unfoldable pub identified : ℕ → Board → Option FlashInfo → FsState → Outcome (Started × FsState)
identified fuel board none s = panic
identified fuel board (some info) (t, l) =
    let flash = board.services.malloc l 4 in
    start_flash fuel board info flash (t, record_allocated flash l)

unfoldable pub init : ℕ → Board → FsState → Outcome (Started × FsState)
init fuel board (t, l) =
    let (err, t1) = identify board.bus t in
    let id = board.bytes_read t1 in
    do
      require (succeeded err)
      let info = identify_flash (get_or id 0 0) (get_or id 1 0) (get_or id 2 0)
      identified fuel board info (t1, l)
