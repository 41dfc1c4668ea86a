-- ===== src/Crypto/Context.antt =====
-- Sources/Crypto/Context.h, Context.cpp, Context+Util.cpp and Init.cpp: the wrapper of the security
-- engine manager, whose calls are the fields of `Engine`. The engine's context is opaque.
use blazenet_device_fw.Prelude.{
  ℕ, Bool, true, false, not, List, if◌then◌else◌, ℤ, pos, negsuc, is_err, Outcome, ok, ◌>>=◌, ◌>>◌,
  require,
}
pub mod Results

-- sl_status_t, with the values that the firmware tells apart.
pub data Status : Type 0 where
  status_ok status_fail command_is_invalid invalid_credentials invalid_parameter : Status
  not_available invalid_signature bus_error abort initialization not_initialized : Status
  other : ℕ → Status

-- sl_se_cert_type_t and sl_se_device_key_type_t
pub data SeCertType : Type 0 where
  se_cert_batch se_cert_device_se se_cert_device_host : SeCertType

pub data SeKeyType : Type 0 where
  immutable_boot immutable_auth immutable_aes_128 immutable_attestation : SeKeyType
  immutable_se_attestation : SeKeyType

-- sl_se_cert_size_type_t
pub record CertSizes : Type 0 where
  pub batch_id_size : ℕ
  pub se_id_size : ℕ
  pub host_id_size : ℕ

-- The calls of the manager: the status, and what a buffer or variable holds afterwards, given what
-- it held before.
pub record Engine : Type 0 where
  pub init : Status
  pub init_context : Status
  pub deinit_context : Status
  pub set_yield : Bool → Status
  pub serial_number : List ℕ → Status × List ℕ
  pub se_version : ℕ → Status × ℕ
  pub read_pubkey : SeKeyType → ℕ → List ℕ → Status × List ℕ
  pub read_cert_size : Status × CertSizes
  pub read_cert : SeCertType → ℕ → List ℕ → Status × List ℕ

pub data CertType : Type 0 where
  batch secure_engine_id host_id : CertType

pub data ImmutableKeyType : Type 0 where
  boot_key auth_key aes128_key attestation_key engine_attestation_key : ImmutableKeyType

-- ConvertError, into Context::Error
unfoldable pub convert_error : Status → ℤ
convert_error status_ok = pos 0
convert_error command_is_invalid = negsuc 1
convert_error invalid_credentials = negsuc 2
convert_error invalid_parameter = negsuc 3
convert_error not_available = negsuc 4
convert_error invalid_signature = negsuc 5
convert_error bus_error = negsuc 6
convert_error abort = negsuc 7
convert_error initialization = negsuc 8
convert_error not_initialized = negsuc 9
convert_error status_fail = negsuc 0
convert_error (other n) = negsuc 0

unfoldable pub convert_cert_type : CertType → SeCertType
convert_cert_type batch = se_cert_batch
convert_cert_type secure_engine_id = se_cert_device_se
convert_cert_type host_id = se_cert_device_host

unfoldable pub convert_key_type : ImmutableKeyType → SeKeyType
convert_key_type boot_key = immutable_boot
convert_key_type auth_key = immutable_auth
convert_key_type aes128_key = immutable_aes_128
convert_key_type attestation_key = immutable_attestation
convert_key_type engine_attestation_key = immutable_se_attestation

-- Whether a status is SL_STATUS_OK.
unfoldable pub succeeded : Status → Bool
succeeded status_ok = true
succeeded status_fail = false
succeeded command_is_invalid = false
succeeded invalid_credentials = false
succeeded invalid_parameter = false
succeeded not_available = false
succeeded invalid_signature = false
succeeded bus_error = false
succeeded abort = false
succeeded initialization = false
succeeded not_initialized = false
succeeded (other n) = false

unfoldable pub converted {ℓ} : {A : Type ℓ} → Status × A → ℤ × A
converted (err, a) = (convert_error err, a)

unfoldable pub get_engine_serial : Engine → List ℕ → ℤ × List ℕ
get_engine_serial se buffer = converted (se.serial_number buffer)

unfoldable pub get_engine_version : Engine → ℕ → ℤ × ℕ
get_engine_version se out_version = converted (se.se_version out_version)

unfoldable pub get_device_pubkey : Engine → ImmutableKeyType → List ℕ → ℤ × List ℕ
get_device_pubkey se which buffer = converted (se.read_pubkey (convert_key_type which) 64 buffer)

unfoldable pub size_of_cert : CertType → CertSizes → ℕ
size_of_cert batch sizes = sizes.batch_id_size
size_of_cert secure_engine_id sizes = sizes.se_id_size
size_of_cert host_id sizes = sizes.host_id_size

unfoldable pub get_device_cert_size : Engine → CertType → ℕ → ℤ × ℕ
get_device_cert_size se which out_size =
    let (err, sizes) = se.read_cert_size in
    (convert_error err, if succeeded err then size_of_cert which sizes else out_size)

-- `size` is the size of the caller's buffer.
unfoldable pub get_device_cert : Engine → CertType → ℕ → List ℕ → ℤ × List ℕ
get_device_cert se which size buffer =
    converted (se.read_cert (convert_cert_type which) size buffer)

unfoldable pub set_async : Engine → Bool → ℤ
set_async se async = convert_error (se.set_yield async)

-- The constructor and the destructor of Context, and Crypto::Init.
unfoldable pub new_context : Engine → Bool → Outcome (Unit {0})
new_context se async =
    require (succeeded se.init_context) >> require (not (is_err (set_async se async)))

unfoldable pub delete_context : Engine → Outcome (Unit {0})
delete_context se = require (succeeded se.deinit_context)

unfoldable pub init : Engine → Outcome (Unit {0})
init se = require (succeeded se.init)
