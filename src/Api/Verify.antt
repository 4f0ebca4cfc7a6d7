-- ===== src/Api/Verify.antt =====
-- verify.go: the strict checks on a submitted document.
pub mod Strict
use ttd_elektronik.Prelude.{
  ℕ, String, ◌&◌, Bool, true, false, not, ◌||◌, ◌&&◌, List, [], ◌∷◌, Result, ok, err, ◌==◌,
  if◌then◌else◌, take, length, ltb, same_bytes, Ranging,
}
use ttd_elektronik.Core.Certutil.{X509}
use ttd_elektronik.Core.Verification.{
  Options, SignatureResult, Report, Pdfsign, public_id, verify_pdf, failure_text,
}
use ttd_elektronik.Store.Types.{
  Bytes, Reservation, Device, Certificate, Error, device_active, cert_active,
}
use ttd_elektronik.Store.Devices.{device}
use ttd_elektronik.Store.Certificates.{certificate_by_serial}
use ttd_elektronik.Store.Signatures.{signature}
use ttd_elektronik.Api.Server.{Config, Server}

pub record VerifiedInfo : Type 0 where
  pub certificate_id : String
  pub cert_serial : String
  pub cert_fingerprint : String
  pub claimed_time : String

-- "%PDF-"
abbrev pub pdf_magic : Bytes
pdf_magic = 0x25 ∷ 0x50 ∷ 0x44 ∷ 0x46 ∷ 0x2d ∷ []

unfoldable pub lacks_magic : Bytes → Bool
lacks_magic pdf = ltb (length pdf) 5 || not (same_bytes (take 5 pdf) pdf_magic)

abbrev pub first_reason : Report → String → String
first_reason vr fallback = elim vr.errors [
  | e ∷ es ↦ e
  | [] ↦ elim vr.signatures [
    | [] ↦ fallback
    | s ∷ ss ↦ elim s.errors [ [] ↦ fallback | e ∷ es ↦ e ]
  ]
]

abbrev pub submit_options : Config → Bytes → Options
submit_options cfg crl = record {
  root_pem = cfg.root_ca_pem;
  intermediate_pem = cfg.ca_chain_pem;
  crl_pem = crl;
  require_mldsa_only = true;
  allow_external_revocation = false;
  at = 0;
  timeout = 15000000000;
}

-- `device is not active`
unfoldable pub device_is_active : Result Error Device → Bool
device_is_active (err e) = false
device_is_active (ok d) = d.status == device_active

unfoldable pub is_found : {A : Type 0} → Result Error A → Bool
is_found (ok a) = true
is_found (err e) = false

-- The checks on the certificate that the store holds under the signature's serial.
unfoldable pub check_certificate :
    Reservation → SignatureResult → Result Error Certificate → Result String VerifiedInfo
check_certificate res sig (err e) = err "signer certificate is not registered with this server"
check_certificate res sig (ok cert) =
    if not (cert.account_id == res.account_id)
    then err "signer certificate belongs to a different account"
    else if not (cert.device_id == res.device_id)
    then err "signer certificate belongs to a different device"
    else if not (cert.status == cert_active)
    then err ("signer certificate is " & cert.status)
    else if not (cert.fingerprint == sig.certificate_fingerprint)
    then err "certificate fingerprint mismatch"
    else ok (record {
      certificate_id = cert.id;
      cert_serial = cert.serial;
      cert_fingerprint = cert.fingerprint;
      claimed_time = sig.client_claimed_signing_time;
    })

-- The checks on the one signature of the report.
unfoldable pub check_signature :
    Ranging → Reservation → Server → Report → SignatureResult → Result String VerifiedInfo
check_signature r res s vr sig =
    if not vr.valid || not sig.valid
    then err (first_reason vr "signature is not valid")
    else if not (sig.algorithm == "ML-DSA-65")
    then err "signature algorithm is not ML-DSA-65"
    else if not sig.trusted_chain
    then err "certificate chain does not reach the configured Root CA"
    else if sig.revoked
    then err "signer certificate is revoked"
    else if not (public_id sig == res.public_id)
    then err "public id in the PDF does not match this reservation"
    else check_certificate res sig (certificate_by_serial r sig.certificate_serial s.st)

unfoldable pub check_report : Ranging → Reservation → Server → Report → Result String VerifiedInfo
check_report r res s vr = elim vr.signatures [
  | [] ↦ err "expected exactly one signature"
  | sig ∷ rest ↦ elim rest [
    | [] ↦ check_signature r res s vr sig
    | _ ∷ _ ↦ err "expected exactly one signature"
  ]
]

module _ (x : X509) (p : Pdfsign) (cfg : Config) (r : Ranging) (now : ℕ) where
  unfoldable pub strict_verify : Reservation → Bytes → Server → Result String VerifiedInfo
  strict_verify res pdf s =
      if lacks_magic pdf
      then err "not a PDF (missing %PDF- magic)"
      else if is_found (signature res.public_id s.st)
      then err "this reservation has already been completed"
      else if not (device_is_active (device res.device_id s.st))
      then err "device is not active"
      else elim (verify_pdf x p now pdf (submit_options cfg s.crl)) [
        | err e ↦ err ("verification error: " & failure_text e)
        | ok vr ↦ check_report r res s vr
      ]
