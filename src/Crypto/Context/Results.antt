-- ===== src/Crypto/Context/Results.antt =====
-- What the routines of Sources/Crypto/Context.h report.
use blazenet_device_fw.Prelude.{
  ℕ, ◌≡◌, ◌≢◌, refl, ◌⊎◌, inl, inr, true, List, if◌then◌else◌, ℤ, pos, is_negative,
}
use blazenet_device_fw.Crypto.Context.{
  Status, status_ok, CertType, ImmutableKeyType, Engine, convert_error, convert_cert_type,
  convert_key_type, succeeded, converted, size_of_cert, get_engine_serial, get_engine_version,
  get_device_pubkey, get_device_cert_size, get_device_cert,
}

-- Zero stands for SL_STATUS_OK alone, and any other status for a negative number.
abbrev pub Reports : Status → ℤ → Type 0
Reports err result =
    ((err ≡ status_ok) × (result ≡ pos 0)) ⊎ ((err ≢ status_ok) × (is_negative result ≡ true))

convert_error-Reports : (err : Status) → Reports err (convert_error err)
unfolding convert_error
convert_error-Reports Status.status_ok = inl (refl, refl)
convert_error-Reports Status.status_fail = inr ((λ e. absurd (cc e)), refl)
convert_error-Reports Status.command_is_invalid = inr ((λ e. absurd (cc e)), refl)
convert_error-Reports Status.invalid_credentials = inr ((λ e. absurd (cc e)), refl)
convert_error-Reports Status.invalid_parameter = inr ((λ e. absurd (cc e)), refl)
convert_error-Reports Status.not_available = inr ((λ e. absurd (cc e)), refl)
convert_error-Reports Status.invalid_signature = inr ((λ e. absurd (cc e)), refl)
convert_error-Reports Status.bus_error = inr ((λ e. absurd (cc e)), refl)
convert_error-Reports Status.abort = inr ((λ e. absurd (cc e)), refl)
convert_error-Reports Status.initialization = inr ((λ e. absurd (cc e)), refl)
convert_error-Reports Status.not_initialized = inr ((λ e. absurd (cc e)), refl)
convert_error-Reports (Status.other n) = inr ((λ e. absurd (cc e)), refl)

-- The size of a certificate is written only with a result of zero.
abbrev pub ReportsSize : Status → ℕ → ℕ → ℤ × ℕ → Type 0
ReportsSize err size before (result, after) =
    ((err ≡ status_ok) × (result ≡ pos 0) × (after ≡ size))
    ⊎ ((err ≢ status_ok) × (is_negative result ≡ true) × (after ≡ before))

size-ReportsSize :
    (err : Status) (size before : ℕ)
    → ReportsSize err size before (convert_error err, if succeeded err then size else before)
unfolding convert_error succeeded
size-ReportsSize Status.status_ok size before = inl (refl, refl, refl)
size-ReportsSize Status.status_fail size before = inr ((λ e. absurd (cc e)), refl, refl)
size-ReportsSize Status.command_is_invalid size before = inr ((λ e. absurd (cc e)), refl, refl)
size-ReportsSize Status.invalid_credentials size before = inr ((λ e. absurd (cc e)), refl, refl)
size-ReportsSize Status.invalid_parameter size before = inr ((λ e. absurd (cc e)), refl, refl)
size-ReportsSize Status.not_available size before = inr ((λ e. absurd (cc e)), refl, refl)
size-ReportsSize Status.invalid_signature size before = inr ((λ e. absurd (cc e)), refl, refl)
size-ReportsSize Status.bus_error size before = inr ((λ e. absurd (cc e)), refl, refl)
size-ReportsSize Status.abort size before = inr ((λ e. absurd (cc e)), refl, refl)
size-ReportsSize Status.initialization size before = inr ((λ e. absurd (cc e)), refl, refl)
size-ReportsSize Status.not_initialized size before = inr ((λ e. absurd (cc e)), refl, refl)
size-ReportsSize (Status.other n) size before = inr ((λ e. absurd (cc e)), refl, refl)

-- Every routine reports the status of its call, and hands on what the call has written.
pub record IsFaithful (se : Engine) : Type 0 where
  pub serial :
      (buffer : List ℕ)
      → let (err, after) = se.serial_number buffer in
        Reports err ((get_engine_serial se buffer).0) × ((get_engine_serial se buffer).1 ≡ after)
  pub version :
      (before : ℕ)
      → let (err, after) = se.se_version before in
        Reports err ((get_engine_version se before).0) × ((get_engine_version se before).1 ≡ after)
  pub pubkey :
      (which : ImmutableKeyType) (buffer : List ℕ)
      → let (err, after) = se.read_pubkey (convert_key_type which) 64 buffer in
        Reports err ((get_device_pubkey se which buffer).0)
        × ((get_device_pubkey se which buffer).1 ≡ after)
  pub cert_size :
      (which : CertType) (before : ℕ)
      → let (err, sizes) = se.read_cert_size in
        ReportsSize err (size_of_cert which sizes) before (get_device_cert_size se which before)
  pub cert :
      (which : CertType) (size : ℕ) (buffer : List ℕ)
      → let (err, after) = se.read_cert (convert_cert_type which) size buffer in
        Reports err ((get_device_cert se which size buffer).0)
        × ((get_device_cert se which size buffer).1 ≡ after)

-- Every routine of the crypto context reports zero if the security engine reports SL_STATUS_OK,
-- and a negative number otherwise, and hands on what the engine has written; the size of a
-- certificate is that of the type asked for, and is written only with a result of zero.
pub context-IsFaithful : (se : Engine) → IsFaithful se
unfolding get_engine_serial get_engine_version get_device_pubkey get_device_cert_size
    get_device_cert converted
context-IsFaithful se = record {
  serial = λ buffer. (convert_error-Reports _, refl);
  version = λ before. (convert_error-Reports _, refl);
  pubkey = λ which buffer. (convert_error-Reports _, refl);
  cert_size = λ which before. size-ReportsSize _ _ before;
  cert = λ which size buffer. (convert_error-Reports _, refl);
}
