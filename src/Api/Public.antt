-- ===== src/Api/Public.antt =====
-- handlers.go: the signatures of a client, and the public verifier.
pub mod Status
use ttd_elektronik.Prelude.{
  ℕ, String, ◌&◌, Bool, true, false, not, ◌||◌, Option, none, some, List, [], ◌∷◌, Result, ok, err,
  ◌==◌, if◌then◌else◌, Ranging,
}
use ttd_elektronik.Core.Certutil.{X509}
use ttd_elektronik.Core.Verification.{
  Options, Report, SignatureResult, Pdfsign, public_id, verify_pdf, failure_text,
}
use ttd_elektronik.Store.Types.{
  Bytes, Account, Device, Certificate, Signature, Error, cert_revoked, device_lost,
  verification_stored_only,
}
use ttd_elektronik.Store.Memory.{Memory}
use ttd_elektronik.Store.Certificates.{certificate_by_serial}
use ttd_elektronik.Store.Signatures.{signature, get_object}
use ttd_elektronik.Api.Types.{
  Claims, Object, Response, file, report, write_json, write_err, str, time,
}
use ttd_elektronik.Api.Server.{Config, Server}
use ttd_elektronik.Api.Accounts.{account_or_zero}
use ttd_elektronik.Api.Enrollment.{device_or_zero}

-- `sig.AccountID != claims(r).Sub`, behind the lookup
unfoldable pub signature_owned_by : Claims → String → Memory → Option Signature
signature_owned_by c id m = elim (signature id m) [
  | err e ↦ none
  | ok sig ↦ if not (sig.account_id == c.sub) then none else some sig
]

-- `hDownload`
unfoldable pub h_download : Claims → String → Server → Server × Response
h_download c id s = elim (signature_owned_by c id s.st) [
  | none ↦ (s, write_err 404 "not found")
  | some sig ↦ elim (get_object sig.storage_object_key s.st) [
    | err e ↦ (s, write_err 404 "object missing")
    | ok b ↦ (s, record { code = 200; body = file b })
  ]
]

abbrev is_revoked : Result Error Certificate → Bool
is_revoked (err e) = false
is_revoked (ok c) = c.status == cert_revoked

-- The status that `publicRecord` shows.
unfoldable pub certificate_status : Ranging → Signature → Device → Memory → String
certificate_status r sig d m =
    if sig.verification_status == verification_stored_only
    then "not_server_verified"
    else if is_revoked (certificate_by_serial r sig.cert_serial m)
    then "revoked"
    else if d.status == device_lost
    then "device_reported_lost"
    else "active"

abbrev note_of : Signature → String
note_of sig =
    if sig.verification_status == verification_stored_only
    then "Berkas ini terlalu besar untuk diverifikasi otomatis di server. "
      & "Server hanya mencatat SHA-512-nya dan menyimpan salinannya. "
      & "Verifikasi tanda tangan secara manual dengan mengunggah PDF di halaman verifikasi."
    else "QR memastikan kecocokan dengan catatan server; integritas seluruh dokumen diverifikasi dari file PDF asli."

-- `publicRecord`
unfoldable pub public_record : Ranging → Signature → Account → Device → Memory → Object
public_record r sig a d m =
    ("public_id", str sig.public_id)
    ∷ ("signer_name", str a.display_name)
    ∷ ("position", str a.position)
    ∷ ("nip", str a.nip)
    ∷ ("device_label", str d.label)
    ∷ ("certificate_serial", str sig.cert_serial)
    ∷ ("certificate_fingerprint", str sig.cert_fingerprint)
    ∷ ("certificate_status", str (certificate_status r sig d m))
    ∷ ("verification_status", str sig.verification_status)
    ∷ ("signed_pdf_sha512", str sig.signed_sha512)
    ∷ ("client_claimed_signing_time", str sig.client_claimed_signing_time)
    ∷ ("server_received_at", time sig.server_received_at)
    ∷ ("note", str (note_of sig))
    ∷ []

-- The record of a signature with its account and its device as they are now.
abbrev record_of : Ranging → Signature → Memory → Object
record_of r sig m =
    public_record r sig (account_or_zero sig.account_id m) (device_or_zero sig.device_id m) m

-- `hPublicRecord`
unfoldable pub h_public_record : Ranging → String → Server → Server × Response
h_public_record r id s = elim (signature id s.st) [
  | err e ↦ (s, write_err 404 "no such record")
  | ok sig ↦ (s, write_json 200 (record_of r sig s.st))
]

-- How the uploaded document arrives.
pub data Upload : Type 0 where
  no_form no_file oversized : Upload
  document : Bytes → Upload

module _ (x : X509) (p : Pdfsign) (cfg : Config) (r : Ranging) where
  abbrev public_options : Bytes → Options
  public_options crl = record {
    root_pem = cfg.root_ca_pem;
    intermediate_pem = cfg.ca_chain_pem;
    crl_pem = crl;
    require_mldsa_only = true;
    allow_external_revocation = false;
    at = 0;
    timeout = 15000000000;
  }

  -- The record of the document's first signature, where the server has it.
  unfoldable pub registered : List SignatureResult → Memory → Option Object
  registered [] m = none
  registered (sig ∷ rest) m =
      let pid = public_id sig in
      if pid == ""
      then none
      else elim (signature pid m) [ err e ↦ none | ok held ↦ some (record_of r held m) ]

  -- `hPublicVerify`
  unfoldable pub h_public_verify : ℕ → Upload → Server → Server × Response
  h_public_verify now no_form s =
      (s, write_err 400 "expected multipart/form-data with a 'file' field")
  h_public_verify now no_file s = (s, write_err 400 "missing 'file'")
  h_public_verify now oversized s = (s, write_err 413 "file too large")
  h_public_verify now (document pdf) s = elim (verify_pdf x p now pdf (public_options s.crl)) [
    | err e ↦ (s, write_err 422 (failure_text e))
    | ok res ↦ (s, record { code = 200; body = report res (registered res.signatures s.st) })
  ]
