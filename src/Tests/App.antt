-- ===== src/Tests/App.antt =====
-- Examples for the results on the Windows app: the request for a certificate, enrolment and signing.
use ttd_elektronik.Prelude.{
  ℕ, ◌+◌, String, true, false, Option, some, [], ◌∷◌, Result, ok, err, get, ◌≡◌, refl, arith,
  ==-distinct, byte_length,
}
use ttd_elektronik.Store.Types.{Bytes}
use ttd_elektronik.Core.Certutil
use ttd_elektronik.Core.Certutil.{
  Block, X509, parse_certificate_pem, parse_chain_pem, fingerprint_sha256,
}
use ttd_elektronik.Core.Enrollment.{Requests, Request, CsrInfo, parse_and_validate_csr}
use ttd_elektronik.Core.Enrollment.Created
use ttd_elektronik.Core.Enrollment.Created.{
  Requester, Subject, create_device_csr, parse_and_validate_csr-create_device_csr,
}
use ttd_elektronik.Core.Keys.{parse_pkcs8, same_key_pair}
use ttd_elektronik.Core.Signing.{PdfSigner, Signed, written, sign_pdf, sign_inner}
use ttd_elektronik.Core.Verification.{Pdfsign, Parse, parsed, verify_pdf, verify_inner}
use ttd_elektronik.Core.Verification.Light.{list_pdf_signatures}
use ttd_elektronik.Api.Types.{Response, str, write_json, write_err}
use ttd_elektronik.Client.Api.{Call, reserve, do_call, make_reservation}
use ttd_elektronik.Client.Keystore.{protect, unprotect}
use ttd_elektronik.Client.Keystore.Vault.{
  Vault, Disk, State, StateCodec, no_state, load_key, key_file, device_cert, chain_cert, root_cert,
  state_file,
}
use ttd_elektronik.Client.Upload.{upload_bytes, stamp_document, submit_document}
use ttd_elektronik.Client.App
use ttd_elektronik.Client.Upload
use ttd_elektronik.Core.Signing
use ttd_elektronik.Core.Verification
use ttd_elektronik.Client.App.{World, wipe_device_state}
use ttd_elektronik.Client.App.Enroll.{pending, certificate_status, ensure_enrolled}
use ttd_elektronik.Client.App.Enroll.Pending.{HasFresh, ensure_enrolled-pending}
use ttd_elektronik.Client.App.Sign
use ttd_elektronik.Client.App.Sign.{SignResult, sign_document}
use ttd_elektronik.Client.App.Sign.Checked.{IsChecked, sign_document-IsChecked}
use ttd_elektronik.Tests.World.{pdf, pdfsign, request}
use ttd_elektronik.Tests.Authority
use ttd_elektronik.Tests.Authority.{keyring, sealing, block, fields, Fields}
use ttd_elektronik.Tests.Encoding.{to_bytes}
use ttd_elektronik.Tests.Client.{client, pkcs8, draws, dpapi, codec, kept, pin}

-- The DER of a request is its key.
abbrev requester : Requester
requester = record { create = λ n sk. some sk }

abbrev requests : Requests
requests = record { parse_request = λ der. some (record request { public_key = der }) }

requester-IsFaithful : Created.IsFaithful Authority.x509 keyring requests requester
requester-IsFaithful = record {
  parses = λ n sk der made. (
    record request { public_key = der },
    refl,
    refl,
    refl,
    refl,
    ground (arith, made),
    ("kfp", refl),
  );
  pem = λ b. Authority.blocks-encode_pem b;
}

abbrev subject : Subject
subject = record { common_name = "Windows"; organization = ""; organizational_unit = "" }

abbrev csr : Bytes
csr = elim (create_device_csr Authority.x509 keyring requester pkcs8 subject) [
  | ok pem ↦ pem
  | err e ↦ []
]

pkcs8-parses : parse_pkcs8 Authority.x509 keyring pkcs8 ≡ ok (5 ∷ [])
unfolding parse_pkcs8
pkcs8-parses = refl

csr-ok : create_device_csr Authority.x509 keyring requester pkcs8 subject ≡ ok csr
unfolding create_device_csr parse_pkcs8
csr-ok = refl

parse_and_validate_csr-create_device_csr_example :
    (r : Request) × (info : CsrInfo) × (parse_and_validate_csr Authority.x509 requests csr
      ≡ ok (r, info))
    × (r.public_key ≡ 5 ∷ [])
parse_and_validate_csr-create_device_csr_example =
    parse_and_validate_csr-create_device_csr Authority.x509 keyring requests requester
      requester-IsFaithful pkcs8 (5 ∷ []) csr subject pkcs8-parses csr-ok

-- The server has no certificate for the device yet.
abbrev unissued : String → Call → ℕ → ℕ × Option Response
unissued token call n = (n + 1, some (write_err 404 "no certificate issued yet"))

abbrev disk : Disk
disk = record { writes = λ p. true; renames = λ p. true }

abbrev state : State
state = record no_state { device_id = "d1" }

abbrev states : StateCodec
states = record { write = λ s. []; read = λ b. (state, true) }

abbrev vault : Vault
vault = (key_file, kept) ∷ (state_file, []) ∷ []

abbrev app : World ℕ
app = record { vault = vault; client = client; server = 0 }

ensure_enrolled-pending_example :
    (certificate_status unissued disk sealing dpapi codec states 5 Authority.x509 keyring requester
        pin app
      ≡ (record app { server = 1 }, ok pending))
    × HasFresh unissued disk sealing dpapi codec states 5 Authority.x509 keyring requester
        (1 ∷ [])
        draws
        pin
        (ensure_enrolled unissued disk sealing dpapi codec states 5 Authority.x509 keyring requester
          (1 ∷ [])
          draws
          "pc"
          pin
          app).0.vault
unfolding get
ensure_enrolled-pending_example =
    ensure_enrolled-pending unissued disk sealing dpapi codec states 5 Authority.x509 keyring
      requester (1 ∷ []) draws "pc" pin app 1 (write_err 404 "no certificate issued yet") refl refl
      (==-distinct "d1" "" refl) refl refl

-- The certificate of the key in the vault.
abbrev certified : Fields
certified = ((7, (1, 1000)), ((false, Certutil.oid_document_signing ∷ []), (5 ∷ [], true)))

abbrev certificate_pem : Bytes
certificate_pem =
    to_bytes block (record { type = "CERTIFICATE"; bytes = to_bytes fields certified })

abbrev signer : PdfSigner
signer = record {
  run = λ pdf spec. written (1 ∷ pdf);
  encodes_qr = λ s. true;
  sha512_hex = λ b. "sha";
  common_name = λ c. "Sari";
  format_time = λ n. "t";
}

abbrev enrolled : World ℕ
enrolled = record app {
  vault =
      (key_file, kept)
      ∷ (chain_cert, [])
      ∷ (device_cert, certificate_pem)
      ∷ (root_cert, certificate_pem)
      ∷ (state_file, [])
      ∷ [];
}

-- The document is reserved; everything else is too large.
abbrev small : String → Call → ℕ → ℕ × Option Response
small token (reserve device sha name) n =
    (n + 1, some (write_json 200 (("public_id", str "p1") ∷ [])))
small token call n = (n + 1, some (write_err 413 "too large"))

abbrev order : Sign.Request
order = record { file_name = "a.pdf"; reason = ""; signer_name = ""; pin = pin; query = [] }

abbrev unread : Bytes → Parse
unread b = parsed []

abbrev shown : World ℕ × Result App.Failure SignResult
shown =
    sign_document small sealing dpapi codec states 5 Authority.x509 keyring signer pdfsign unread
      true order (some pdf) enrolled

abbrev answer : SignResult
answer = record {
  output = 1 ∷ pdf;
  public_id = "p1";
  verification_url = "";
  original_sha512 = "sha";
  signed_sha512 = "sha";
  server_status = "local-only (upload failed)";
}

sign-ok :
    sign_document small sealing dpapi codec states 5 Authority.x509 keyring signer pdfsign unread
      true order
      (some pdf)
      enrolled
    ≡ (shown.0, ok answer)
unfolding sign_document list_pdf_signatures get make_reservation do_call stamp_document load_key
    unprotect protect sign_pdf sign_inner parse_pkcs8 parse_chain_pem same_key_pair verify_pdf
    verify_inner Verification.report Verification.judge Upload.send_chunk Upload.send_from
    submit_document upload_bytes Certutil.describe fingerprint_sha256
    Signing.build_signature_appearance Verification.check_crl Verification.crl_issuer_for
    byte_length
sign-ok = refl

sign_document-IsChecked_example :
    IsChecked small sealing dpapi codec states 5 Authority.x509 keyring signer pdfsign unread true
      order enrolled shown.0 pdf answer
sign_document-IsChecked_example =
    sign_document-IsChecked small sealing dpapi codec states 5 Authority.x509 keyring signer pdfsign
      unread true order pdf enrolled shown.0 answer sign-ok
