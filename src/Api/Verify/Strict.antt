-- ===== src/Api/Verify/Strict.antt =====
-- What a document that passes the strict checks has been checked for.
use ttd_elektronik.Prelude.{
  ℕ, String, Bool, true, false, not, ◌||◌, [], ◌∷◌, Result, ok, err, ◌≡◌, refl, sym, ap, ◌∙◌, arith,
  eq_iff, take, same_bytes_iff, Ranging,
}
use ttd_elektronik.Core.Certutil.{X509}
use ttd_elektronik.Core.Verification.{SignatureResult, Report, Pdfsign, public_id, verify_pdf}
use ttd_elektronik.Core.Verification.Verdict.{IsVerified, verify_pdf-valid_iff}
use ttd_elektronik.Store.Types.{
  Bytes, Reservation, Device, Certificate, Error, device_active, cert_active,
}
use ttd_elektronik.Store.Devices.{device}
use ttd_elektronik.Store.Certificates.{certificate_by_serial, certificate}
use ttd_elektronik.Store.Signatures.{signature}
use ttd_elektronik.Store.Search.{certificate_by_serial_sound}
use ttd_elektronik.Store.Invariant.{IsConsistent}
use ttd_elektronik.Api.Server.{Config, Server}
use ttd_elektronik.Api.Verify.{
  VerifiedInfo, pdf_magic, submit_options, strict_verify, check_report, check_signature,
  check_certificate, lacks_magic, is_found, device_is_active,
}

not-false : (b : Bool) → not b ≡ false → b ≡ true
not-false b e = ground arith

or-false : (a b : Bool) → (a || b) ≡ false → (a ≡ false) × (b ≡ false)
or-false a b e = ground arith

-- The certificate of the store that stands behind the signature.
pub record IsBound (res : Reservation) (sig : SignatureResult) (info : VerifiedInfo)
    (cert : Certificate) : Type 0 where
  pub account : cert.account_id ≡ res.account_id
  pub device : cert.device_id ≡ res.device_id
  pub active : cert.status ≡ cert_active
  pub fingerprint : cert.fingerprint ≡ sig.certificate_fingerprint
  pub info_id : info.certificate_id ≡ cert.id
  pub info_serial : info.cert_serial ≡ cert.serial
  pub info_fingerprint : info.cert_fingerprint ≡ cert.fingerprint
  pub info_time : info.claimed_time ≡ sig.client_claimed_signing_time

check_certificate-IsBound :
    (res : Reservation) (sig : SignatureResult) (cert : Certificate) (info : VerifiedInfo)
    → check_certificate res sig (ok cert) ≡ ok info
    → IsBound res sig info cert
unfolding check_certificate
check_certificate-IsBound res sig cert info e = ground (
  arith,
  eq_iff cert.account_id res.account_id,
  eq_iff cert.device_id res.device_id,
  eq_iff cert.status cert_active,
  eq_iff cert.fingerprint sig.certificate_fingerprint,
)

check_certificate-found :
    (res : Reservation) (sig : SignatureResult) (found : Result Error Certificate)
    (info : VerifiedInfo)
    → check_certificate res sig found ≡ ok info
    → (cert : Certificate) × (found ≡ ok cert)
unfolding check_certificate
check_certificate-found res sig (err e) info h = cc
check_certificate-found res sig (ok cert) info h = (cert, refl)

device_is_active-ok :
    (found : Result Error Device)
    → device_is_active found ≡ true
    → (d : Device) × (found ≡ ok d) × (d.status ≡ device_active)
unfolding device_is_active
device_is_active-ok (err e) h = cc
device_is_active-ok (ok d) h = (d, refl, (eq_iff d.status device_active).0 h)

is_found-signature :
    (id : String) (s : Server)
    → is_found (signature id s.st) ≡ false
    → signature id s.st ≡ err Error.not_found
unfolding is_found signature
is_found-signature id s h = ground arith

-- The one signature of the report.
pub record IsGenuine (res : Reservation) (vr : Report) (sig : SignatureResult) : Type 0 where
  pub verdict : vr.valid ≡ true
  pub valid : sig.valid ≡ true
  pub algorithm : sig.algorithm ≡ "ML-DSA-65"
  pub chained : sig.trusted_chain ≡ true
  pub unrevoked : sig.revoked ≡ false
  pub bound : public_id sig ≡ res.public_id

module _ (r : Ranging) (res : Reservation) (s : Server) (vr : Report) where
  check_signature-IsGenuine :
      (sig : SignatureResult) (info : VerifiedInfo)
      → check_signature r res s vr sig ≡ ok info
      → IsGenuine res vr sig
        × (check_certificate res sig (certificate_by_serial r sig.certificate_serial s.st)
            ≡ ok info)
  unfolding check_signature
  check_signature-IsGenuine sig info e =
      ground (arith, eq_iff sig.algorithm "ML-DSA-65", eq_iff (public_id sig) res.public_id)

  check_report-one :
      (info : VerifiedInfo)
      → check_report r res s vr ≡ ok info
      → (sig : SignatureResult) × (vr.signatures ≡ sig ∷ [])
        × (check_signature r res s vr sig ≡ ok info)
  unfolding check_report
  check_report-one info e = ground arith

module _ (x : X509) (p : Pdfsign) (cfg : Config) (r : Ranging) (now : ℕ) (res : Reservation)
    (pdf : Bytes) (s : Server) where
  -- Everything that a submission has been checked for.
  pub record IsAccepted (info : VerifiedInfo) : Type 0 where
    pub magic : take 5 pdf ≡ pdf_magic
    pub unused : signature res.public_id s.st ≡ err Error.not_found
    pub device_found : Device
    pub device_stored : device res.device_id s.st ≡ ok device_found
    pub device_usable : device_found.status ≡ device_active
    pub verified : IsVerified x p now pdf (submit_options cfg s.crl)
    pub report : Report
    pub reported : verify_pdf x p now pdf (submit_options cfg s.crl) ≡ ok report
    pub sig : SignatureResult
    pub alone : report.signatures ≡ sig ∷ []
    pub genuine : IsGenuine res report sig
    pub cert : Certificate
    pub registered : certificate cert.id s.st ≡ ok cert
    pub serial : cert.serial ≡ sig.certificate_serial
    pub cert_bound : IsBound res sig info cert

  strict_verify-guards :
      (info : VerifiedInfo)
      → strict_verify x p cfg r now res pdf s ≡ ok info
      → (lacks_magic pdf ≡ false)
        × (is_found (signature res.public_id s.st) ≡ false)
        × (device_is_active (device res.device_id s.st) ≡ true)
        × ((vr : Report) × (verify_pdf x p now pdf (submit_options cfg s.crl) ≡ ok vr)
            × (check_report r res s vr ≡ ok info))
  unfolding strict_verify
  strict_verify-guards info e = ground arith

  lacks_magic-false : lacks_magic pdf ≡ false → take 5 pdf ≡ pdf_magic
  unfolding lacks_magic
  lacks_magic-false e = (same_bytes_iff (take 5 pdf) pdf_magic).0 (not-false _ (or-false _ _ e).1)

  -- In a consistent store, a document that passes the strict checks is a PDF, its reservation is
  -- unused, the device is active, the verifier gives a positive verdict against the configured
  -- root and the current list, its one signature is ML-DSA-65, unrevoked and bound to the
  -- reservation, and the store has an active certificate of that serial and fingerprint which
  -- belongs to the account and the device of the reservation.
  pub strict_verify-IsAccepted :
      (info : VerifiedInfo)
      → IsConsistent s.st
      → strict_verify x p cfg r now res pdf s ≡ ok info
      → IsAccepted info
  strict_verify-IsAccepted info h e =
      let (magic, unused, active, (vr, verdict, checked)) = strict_verify-guards info e in
      let (sig, alone, signed) = check_report-one r res s vr info checked in
      let (genuine, certified) = check_signature-IsGenuine r res s vr sig info signed in
      let (d, stored, usable) = device_is_active-ok (device res.device_id s.st) active in
      let (cert, listed) = check_certificate-found res sig _ info certified in
      let (registered, serial) =
        certificate_by_serial_sound r s.st h sig.certificate_serial cert listed in
      record {
        magic = lacks_magic-false magic;
        unused = is_found-signature res.public_id s unused;
        device_found = d;
        device_stored = stored;
        device_usable = usable;
        verified =
            (verify_pdf-valid_iff x p now pdf (submit_options cfg s.crl)).0
              (vr, verdict, genuine.verdict);
        report = vr;
        reported = verdict;
        sig = sig;
        alone = alone;
        genuine = genuine;
        cert = cert;
        registered = registered;
        serial = serial;
        cert_bound =
            check_certificate-IsBound res sig cert info
              (ap (check_certificate res sig) (sym listed) ∙ certified);
      }
