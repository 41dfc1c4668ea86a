-- ===== src/Fs/FlashInfo.antt =====
-- Sources/Fs/FlashInfo.h and FlashInfo.cpp: the flash chips that the firmware knows. The strings of
-- the manufacturer and the part are left out.
use blazenet_device_fw.Prelude.{ℕ, ◌^◌, ◌&&◌, Option, none, some, ◌==◌, if◌then◌else◌, u32}

-- Sizes are powers of two, given by the exponent.
pub record FlashInfo : Type 0 where
  pub capacity : ℕ
  pub page_size : ℕ
  pub sector_size : ℕ
  pub block_size : ℕ
  pub num_security_registers : ℕ
  pub cmd_read_status : ℕ
  pub status_busy_bit : ℕ
  pub cmd_write_enable : ℕ
  pub cmd_write_disable : ℕ
  pub cmd_read_security : ℕ
  pub cmd_write_security : ℕ
  pub cmd_erase_security : ℕ
  pub cmd_read : ℕ
  pub cmd_fast_read : ℕ
  pub cmd_program_page : ℕ
  pub cmd_erase_sector : ℕ
  pub cmd_erase_block : ℕ
  pub cmd_erase_chip : ℕ
  pub cmd_power_down : ℕ
  pub cmd_wake_up : ℕ
  pub cmd_reset_enable : ℕ
  pub cmd_reset : ℕ
  pub timeout_page_program : ℕ
  pub timeout_sector_erase : ℕ
  pub timeout_block_erase : ℕ
  pub timeout_chip_erase : ℕ

unfoldable pub capacity_bytes : FlashInfo → ℕ
capacity_bytes info = u32 (2 ^ info.capacity)

unfoldable pub page_size_bytes : FlashInfo → ℕ
page_size_bytes info = 2 ^ info.page_size

unfoldable pub sector_size_bytes : FlashInfo → ℕ
sector_size_bytes info = 2 ^ info.sector_size

unfoldable pub block_size_bytes : FlashInfo → ℕ
block_size_bytes info = 2 ^ info.block_size

-- W25Q64JV-IQ/JQ
abbrev pub w25q64jv : FlashInfo
w25q64jv = record {
  capacity = 23;
  page_size = 8;
  sector_size = 12;
  block_size = 16;
  num_security_registers = 3;
  cmd_read_status = 5;
  status_busy_bit = 1;
  cmd_write_enable = 6;
  cmd_write_disable = 4;
  cmd_read_security = 72;
  cmd_write_security = 66;
  cmd_erase_security = 68;
  cmd_read = 3;
  cmd_fast_read = 11;
  cmd_program_page = 2;
  cmd_erase_sector = 32;
  cmd_erase_block = 216;
  cmd_erase_chip = 199;
  cmd_power_down = 185;
  cmd_wake_up = 171;
  cmd_reset_enable = 102;
  cmd_reset = 153;
  timeout_page_program = 3;
  timeout_sector_erase = 400;
  timeout_block_erase = 2000;
  timeout_chip_erase = 100000;
}

-- IdentifyFlash on the three bytes of the JEDEC identification.
unfoldable pub identify_flash : ℕ → ℕ → ℕ → Option FlashInfo
identify_flash a b c = if a == 239 && (b == 64 && c == 23) then some w25q64jv else none
