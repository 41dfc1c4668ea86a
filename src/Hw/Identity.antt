-- ===== src/Hw/Identity.antt =====
-- Sources/Hw/Identity.h and Identity.cpp: the address and the serial number of the device.
--
-- The words of DEVINFO are arguments. Util::Hash and Util::Base32 are not in the repository, so
-- they are the fields of `Encoders`.
use blazenet_device_fw.Prelude.{
  ℕ, ◌+◌, ◌-◌, ◌*◌, ◌/◌, ◌%◌, List, [], ◌∷◌, ◌++◌, take, get_or, ltb, if◌then◌else◌,
}

pub record Encoders : Type 0 where
  -- MurmurHash3 of some bytes with a seed
  pub murmur_hash3 : List ℕ → ℕ → ℕ
  -- Base32::Encode: what the output holds afterwards
  pub base32_encode : List ℕ → List ℕ

-- gEui64 and gSerial
pub record Identity : Type 0 where
  pub eui64 : List ℕ
  pub serial : List ℕ

-- kSerialHashSeed, 'SERN'
abbrev pub serial_hash_seed : ℕ
serial_hash_seed = 0x5345524e

-- __builtin_bswap32
unfoldable pub bswap32 : ℕ → ℕ
bswap32 n =
    n / 16777216 % 256 + 256 * (n / 65536 % 256) + 65536 * (n / 256 % 256) + 16777216 * (n % 256)

-- The bytes of a variable of 32 bits in memory, lowest first.
unfoldable pub memory32 : ℕ → List ℕ
memory32 n = n % 256 ∷ n / 256 % 256 ∷ n / 65536 % 256 ∷ n / 16777216 % 256 ∷ []

unfoldable pub read_eui64 : ℕ → ℕ → List ℕ
read_eui64 high low = memory32 (bswap32 high) ++ memory32 (bswap32 low)

unfoldable pub init : Encoders → ℕ → ℕ → Identity
init enc high low =
    let address = read_eui64 high low in
    let serial_hash = enc.murmur_hash3 address serial_hash_seed in
    record { eui64 = address; serial = enc.base32_encode (memory32 serial_hash) }

unfoldable pub hex_digit : ℕ → ℕ
hex_digit d = if ltb d 10 then b'0' + d else b'a' + (d - 10)

-- A byte as %02x
unfoldable pub hex_byte : ℕ → List ℕ
hex_byte b = hex_digit (b / 16) ∷ hex_digit (b % 16) ∷ []

-- FormatEui64String into a buffer of `size` characters, without the final zero.
unfoldable pub format_eui64_string : ℕ → Identity → List ℕ
format_eui64_string size d =
    let part = (λ (i : ℕ). hex_byte (get_or d.eui64 i 0)) in
    take (size - 1)
      (part 0 ++ b':' ∷ part 1 ++ b':' ∷ part 2 ++ b':' ∷ part 3 ++ b':' ∷ part 4 ++ b':' ∷ part 5)
