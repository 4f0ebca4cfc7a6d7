-- ===== src/Tests/Certs.antt =====
-- Examples for the results on certificates, requests and revocation lists.
use ttd_elektronik.Prelude.{
  String, true, false, none, some, [], ◌∷◌, get, ◌≡◌, ◌↔◌, ◌⊎◌, refl, in_order, Result, ok, arith,
  eq_iff,
}
use ttd_elektronik.Core.Certutil
use ttd_elektronik.Core.Certutil.{
  X509, CertInfo, CrlStatus, parse_and_validate_certificate, parse_certificate_pem, describe,
  fingerprint_sha256, check_profile, parse_chain_pem, validate_certificate_chain, validate_crl,
}
use ttd_elektronik.Core.Certutil.Profile.{HasProfile, parse_and_validate_certificate_iff}
use ttd_elektronik.Core.Certutil.Revocation.{Lists, validate_crl-exact}
use ttd_elektronik.Core.Enrollment.{CsrInfo, parse_and_validate_csr}
use ttd_elektronik.Store.Types.{
  Certificate, Signature, account_disabled, account_active, verification_stored_only,
  verification_accepted,
}
use ttd_elektronik.Store.Memory.{Memory}
use ttd_elektronik.Store.Accounts.{account}
use ttd_elektronik.Store.Certificates.{certificate, create_certificate}
use ttd_elektronik.Store.Devices.{set_enrollment_status}
use ttd_elektronik.Store.Signatures.{signature, get_object, append}
use ttd_elektronik.Api.Types.{file}
use ttd_elektronik.Api.Server.{Server}
use ttd_elektronik.Api.Enrollment.{h_revoke}
use ttd_elektronik.Api.Enrollment.Issue.{Ca, bind_issued_cert, h_submit_csr}
use ttd_elektronik.Api.Enrollment.Binding.{IsBound, bind_issued_cert-IsBound}
use ttd_elektronik.Api.Enrollment.Issued.{h_submit_csr-inactive}
use ttd_elektronik.Api.Public.{certificate_status, h_download}
use ttd_elektronik.Api.Public.Status.{h_revoke-shown, h_download_iff}
use ttd_elektronik.Api.Submit.{stored_record}
use ttd_elektronik.Tests.World.{
  world, world-IsConsistent, sari, phone, enrolled, certified, reserved, server, draw, claims,
  config, x509, leaf, sample_crl, requests,
}

abbrev info : CertInfo
info = record {
  subject = "CN=Sari";
  issuer = "CN=Lab";
  serial_number = "07";
  fingerprint_sha256 = "fp";
  public_key_algorithm = "ML-DSA-65";
  signature_algorithm = "ML-DSA-65";
  not_before = 1;
  not_after = 1000;
  is_ca = false;
  has_document_signing = true;
}

abbrev bound : Certificate
bound = record certified { id = "r2" }

abbrev binding : Memory × Result String Certificate
binding = bind_issued_cert x509 requests config draw enrolled (2 ∷ []) world

bind_issued_cert-IsBound_example :
    IsBound x509 requests config draw enrolled (2 ∷ []) world binding.0 bound
unfolding bind_issued_cert parse_and_validate_certificate parse_certificate_pem check_profile
    describe fingerprint_sha256 parse_chain_pem validate_certificate_chain parse_and_validate_csr
    create_certificate set_enrollment_status append
bind_issued_cert-IsBound_example =
    bind_issued_cert-IsBound x509 requests config draw enrolled (2 ∷ []) world binding.0 bound refl

abbrev csr_info : CsrInfo
csr_info = record {
  subject = "CN=Sari";
  public_key_algorithm = "ML-DSA-65";
  public_key_fp = "kfp";
  proof_of_possession = true;
}

parse_and_validate_certificate_iff_example :
    (parse_and_validate_certificate x509 (2 ∷ []) 10 ≡ ok (leaf, info)) ↔ (
      (parse_certificate_pem x509 (2 ∷ []) ≡ ok leaf)
      × HasProfile 10 leaf
      × (info ≡ describe x509 leaf))
parse_and_validate_certificate_iff_example =
    parse_and_validate_certificate_iff x509 (2 ∷ []) 10 leaf info

abbrev listed : CrlStatus
listed = record {
  checked = true;
  revoked = true;
  revoked_at = 5;
  this_update = 1;
  next_update = 1000;
  stale = false;
  signature_ok = true;
}

validate_crl-exact_example :
    ((listed.revoked ≡ true) ↔ Lists sample_crl 7)
    × ((listed.signature_ok ≡ false) × (some leaf ≡ none)
        ⊎ (listed.signature_ok ≡ true)
          × ((i : Certutil.Certificate) × (some leaf ≡ some i)
              × (x509.signed_by sample_crl i ≡ true)))
unfolding validate_crl
validate_crl-exact_example =
    validate_crl-exact x509 (9 ∷ []) (some leaf) leaf 10 sample_crl refl listed refl

abbrev idle : Server
idle = record server {
  st = record world { accounts = ("a1", record sari { status = account_disabled }) ∷ [] };
}

abbrev lab : Ca
lab = record { issue = λ request. ok (2 ∷ []) }

h_submit_csr-inactive_example :
    (h_submit_csr x509 requests config draw lab claims "d1" (some (4 ∷ [])) idle).0.st.certificates
    ≡ world.certificates
unfolding account get
h_submit_csr-inactive_example =
    h_submit_csr-inactive x509 requests config draw lab claims "d1" (some (4 ∷ [])) idle
      (λ e. cc ((eq_iff account_disabled account_active).1 e))

abbrev checked : Signature
checked = record (stored_record 5 reserved "k" "sha" 6) {
  cert_serial = "07";
  verification_status = verification_accepted;
}

only_one :
    (c : Certificate) → certificate c.id world ≡ ok c → c.serial ≡ certified.serial → c.id ≡ "c1"
unfolding certificate get
only_one c e same = ground (arith, eq_iff "c1" c.id)

h_revoke-shown_example :
    certificate_status in_order checked phone (h_revoke draw "c1" "hilang" server).0.st ≡ "revoked"
unfolding certificate get
h_revoke-shown_example =
    h_revoke-shown in_order draw "hilang" server certified world-IsConsistent refl only_one phone
      checked (λ e. cc ((eq_iff verification_accepted verification_stored_only).1 e)) refl

h_download_iff_example :
    ((h_download claims "p1" server).1 ≡ record { code = 200; body = file (1 ∷ []) }) ↔ (
      (sig : Signature) × (signature "p1" world ≡ ok sig)
      × (sig.account_id ≡ "a1")
      × (get_object sig.storage_object_key world ≡ ok (1 ∷ [])))
h_download_iff_example = h_download_iff claims "p1" server (1 ∷ [])
