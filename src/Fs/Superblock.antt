-- ===== src/Fs/Superblock.antt =====
-- The superblock of Sources/Fs/Init.h, and the routines of Init.cpp that fill it in and validate it.
--
-- The memory of the structure is a list of bytes: seven little-endian words with no padding.
-- `Util::Crc32` is a function of the bytes.
pub mod Layout
pub mod Validation
use blazenet_device_fw.Prelude.{
  ℕ, ◌+◌, ◌*◌, ◌/◌, ◌%◌, Bool, true, false, not, List, [], ◌∷◌, ◌++◌, get_or, take, ltb, ◌==◌,
  if◌then◌else◌, sub32,
}
use blazenet_device_fw.Fs.FlashInfo.{FlashInfo, capacity_bytes, sector_size_bytes}

pub record Superblock : Type 0 where
  pub magic : ℕ
  pub version : ℕ
  pub total_length : ℕ
  pub fs_type : ℕ
  pub fs_start : ℕ
  pub fs_end : ℕ
  pub crc : ℕ

-- kMagic, kVersion, sizeof(Superblock), offsetof(Superblock, crc) and FsType::SPIFFS
abbrev pub super_magic : ℕ
super_magic = 1112293722

abbrev pub super_version : ℕ
super_version = 256

abbrev pub super_size : ℕ
super_size = 28

abbrev pub crc_offset : ℕ
crc_offset = 24

abbrev pub type_spiffs : ℕ
type_spiffs = 1

-- A word as it lies in memory.
unfoldable pub word_bytes : ℕ → List ℕ
word_bytes n = n % 256 ∷ n / 256 % 256 ∷ n / 65536 % 256 ∷ n / 16777216 % 256 ∷ []

unfoldable pub word_at : List ℕ → ℕ → ℕ
word_at bytes i =
    get_or bytes i 0
    + 256 * get_or bytes (i + 1) 0
    + 65536 * get_or bytes (i + 2) 0
    + 16777216 * get_or bytes (i + 3) 0

unfoldable pub to_bytes : Superblock → List ℕ
to_bytes s =
    word_bytes s.magic
    ++ word_bytes s.version
    ++ word_bytes s.total_length
    ++ word_bytes s.fs_type
    ++ word_bytes s.fs_start
    ++ word_bytes s.fs_end
    ++ word_bytes s.crc

unfoldable pub of_bytes : List ℕ → Superblock
of_bytes bytes = record {
  magic = word_at bytes 0;
  version = word_at bytes 4;
  total_length = word_at bytes 8;
  fs_type = word_at bytes 12;
  fs_start = word_at bytes 16;
  fs_end = word_at bytes 20;
  crc = word_at bytes 24;
}

-- InitSuperblock before the checksum, whose place is not read.
unfoldable pub layout : FlashInfo → Superblock
layout info =
    let start = sector_size_bytes info in
    record {
      magic = super_magic;
      version = super_version;
      total_length = super_size;
      fs_type = type_spiffs;
      fs_start = start;
      fs_end = sub32 (sub32 (capacity_bytes info) 1) start;
      crc = 0;
    }

unfoldable pub init_superblock : (List ℕ → ℕ) → FlashInfo → Superblock
init_superblock crc32 info =
    let contents = layout info in
    record contents { crc = crc32 (take crc_offset (to_bytes contents)) }

-- The loop of Fs::Init that looks for a byte other than 0xFF.
unfoldable pub is_empty : List ℕ → Bool
is_empty [] = true
is_empty (b ∷ bytes) = if not (b == 255) then false else is_empty bytes

pub data Validity : Type 0 where
  valid invalid_size invalid_magic invalid_crc : Validity

unfoldable pub validate : (List ℕ → ℕ) → List ℕ → Validity
validate crc32 bytes =
    let s = of_bytes bytes in
    let computed_crc = crc32 (take crc_offset bytes) in
    if ltb s.total_length super_size
    then invalid_size
    else if not (s.magic == super_magic)
    then invalid_magic
    else if not (s.crc == computed_crc)
    then invalid_crc
    else valid

unfoldable pub is_valid : Validity → Bool
is_valid valid = true
is_valid invalid_size = false
is_valid invalid_magic = false
is_valid invalid_crc = false
