-- ===== src/Fs/Superblock/Layout.antt =====
-- How the superblock of Sources/Fs/Init.h lies in memory.
use blazenet_device_fw.Prelude.{ℕ, ◌+◌, ◌*◌, ◌/◌, ◌%◌, ◌<◌, ◌≡◌, arith}
use blazenet_device_fw.Fs.Superblock.{Superblock, word_bytes, word_at, to_bytes, of_bytes}

-- Every field fits its word.
pub record IsStorable (s : Superblock) : Type 0 where
  pub magic_fits : s.magic < 4294967296
  pub version_fits : s.version < 4294967296
  pub total_length_fits : s.total_length < 4294967296
  pub fs_type_fits : s.fs_type < 4294967296
  pub fs_start_fits : s.fs_start < 4294967296
  pub fs_end_fits : s.fs_end < 4294967296
  pub crc_fits : s.crc < 4294967296

word_value :
    (n : ℕ)
    → n < 4294967296
    → n % 256 + 256 * (n / 256 % 256) + 65536 * (n / 65536 % 256) + 16777216 * (n / 16777216 % 256)
      ≡ n
word_value n h = omega arith

pub to_bytes-of_bytes : (s : Superblock) → IsStorable s → of_bytes (to_bytes s) ≡ s
unfolding to_bytes of_bytes word_bytes word_at
to_bytes-of_bytes s h = λ i. record {
  magic = word_value s.magic h.magic_fits i;
  version = word_value s.version h.version_fits i;
  total_length = word_value s.total_length h.total_length_fits i;
  fs_type = word_value s.fs_type h.fs_type_fits i;
  fs_start = word_value s.fs_start h.fs_start_fits i;
  fs_end = word_value s.fs_end h.fs_end_fits i;
  crc = word_value s.crc h.crc_fits i;
}
