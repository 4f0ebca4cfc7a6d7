-- ===== src/Client/App/Sign.antt =====
-- appcore.go: signing a document, with the server's stamp on it, and verifying one.
pub mod Checked
use ttd_elektronik.Prelude.{
  ℕ, ◌*◌, ◌^◌, String, ◌&◌, Bool, true, false, not, ◌&&◌, ◌||◌, Option, none, some, List, [], ◌∷◌,
  ◌++◌, Result, ok, err, if◌then◌else◌, ◌==◌, leb, length,
}
use ttd_elektronik.Store.Types.{Bytes}
use ttd_elektronik.Core.Certutil.{X509}
use ttd_elektronik.Core.Keys.{Keyring}
use ttd_elektronik.Core.Signing
use ttd_elektronik.Core.Signing.{PdfSigner, Signed, sign_pdf}
use ttd_elektronik.Core.Verification
use ttd_elektronik.Core.Verification.{Pdfsign, Parse, Report, verify_pdf}
use ttd_elektronik.Core.Verification.Light.{list_pdf_signatures}
use ttd_elektronik.CaAdmin.Keyfile.{Sealing}
use ttd_elektronik.Api.Types.{Response, Object, Value, str}
use ttd_elektronik.Client.Api
use ttd_elektronik.Client.Api.{
  Call, Client, Reservation, ca_crl, is_too_large, make_reservation, get_raw, text_in,
}
use ttd_elektronik.Client.Upload.{stamp_document, submit_document}
use ttd_elektronik.Client.Keystore.{Dpapi, Codec}
use ttd_elektronik.Client.Keystore.Vault.{
  StateCodec, state_of, load_key, device_cert_pem, chain_pem, root_pem,
}
use ttd_elektronik.Client.App.{
  World, Failure, vault_failed, call_failed, sign_failed, stamp_failed, no_chain, no_certificate,
  no_root, unread, unwritten, already_signed, unverified,
}

-- `localVerifyMaxBytes`
abbrev pub local_verify_max_bytes : ℕ
local_verify_max_bytes = 200 * 2 ^ 20

pub record Request : Type 0 where
  pub file_name : String
  pub reason : String
  pub signer_name : String
  pub pin : String
  pub query : Object

-- What is shown; the output is the signed document, where it is written.
pub record SignResult : Type 0 where
  pub output : Bytes
  pub public_id : String
  pub verification_url : String
  pub original_sha512 : String
  pub signed_sha512 : String
  pub server_status : String

-- `Timeout: 20 * time.Second`
abbrev pub timeout : ℕ
timeout = 20 * 1000000000

-- `sub["status"].(string)`
abbrev status_in : Object → Option String
status_in [] = none
status_in ((key, str s) ∷ fields) = if key == "status" then some s else status_in fields
status_in ((key, _) ∷ fields) = if key == "status" then none else status_in fields

-- The status that is shown for the server's answer; the text of an error is not.
abbrev status_of : Result Api.Failure Object → String
status_of (err e) = "local-only (upload failed)"
status_of (ok fields) = elim (status_in fields) [
  | none ↦ "submitted"
  | some v ↦
      if v == "stored_unverified"
      then "tersimpan — TIDAK diverifikasi server (berkas besar); verifikasi manual lewat halaman verifikasi"
      else v
]

-- `listed` is how the parser ends on the document, for `ListPDFSignatures`; `writes` whether the output
-- can be written.
module _ {S : Type 0} (wire : String → Call → S → S × Option Response) (z : Sealing) (w : Dpapi)
    (j : Codec) (sc : StateCodec) (now : ℕ) (x : X509) (k : Keyring) (p : PdfSigner) (v : Pdfsign)
    (listed : Bytes → Parse) (writes : Bool) where
  abbrev pub is_signed : Bytes → Bool
  is_signed pdf = elim (list_pdf_signatures x (listed pdf)) [
    | err e ↦ false
    | ok [] ↦ false
    | ok (i ∷ is) ↦ true
  ]

  abbrev pub local_options : Bytes → Bytes → Bytes → Verification.Options
  local_options root chain crl = record {
    root_pem = root;
    intermediate_pem = chain;
    crl_pem = crl;
    at = 0;
    require_mldsa_only = true;
    timeout = timeout;
    allow_external_revocation = false;
  }

  -- The check before the upload; a document over the limit is not checked.
  abbrev pub passes : Bytes → Bytes → Bytes → Result Failure (Unit {0})
  passes root chain pdf =
      if leb (length pdf) local_verify_max_bytes
      then elim (verify_pdf x v now pdf (local_options root chain [])) [
        | err e ↦ err (unverified (some e))
        | ok report ↦ if report.valid then ok tt else err (unverified none)
      ]
      else ok tt

  -- The signed document is written and submitted; a failed upload is shown as a status.
  abbrev submitted : Reservation → Bytes → Signed → World S → World S × Result Failure SignResult
  submitted res pdf s a =
      if not writes
      then (a, err unwritten)
      else let (s', r) = submit_document wire a.client res.public_id s.signed_pdf a.server in
        (
          record a { server = s' },
          ok (record {
            output = s.signed_pdf;
            public_id = res.public_id;
            verification_url = res.verification_url;
            original_sha512 = p.sha512_hex pdf;
            signed_sha512 = s.signed_sha512;
            server_status = status_of r;
          }),
        )

  abbrev pub options_for : Request → Reservation → Signing.Options
  options_for q res = record {
    reason = q.reason;
    location = "";
    signer_name = q.signer_name;
    public_id = res.public_id;
    verification_url = res.verification_url;
    include_qr = false;
    page = 0;
    claimed = 0;
    timeout = timeout;
  }

  -- The document is signed with the device's key, and checked.
  abbrev pub signed :
      Request
      → Reservation
      → Bytes
      → Bytes
      → Bytes
      → Bytes
      → Bytes
      → World S
      → World S × Result Failure SignResult
  signed q res pdf to_sign cert chain root a = elim (load_key z w j q.pin a.vault) [
    | err e ↦ (a, err (vault_failed e))
    | ok key ↦ elim (sign_pdf x k p now to_sign key (cert ++ chain) (options_for q res)) [
      | err e ↦ (a, err (sign_failed e))
      | ok s ↦ elim (passes root chain s.signed_pdf) [
        | err e ↦ (a, err e)
        | ok u ↦ submitted res pdf s a
      ]
    ]
  ]

  -- The stamped document; one that is too large for a stamp is signed as it is.
  abbrev pub to_be_signed : Bytes → Result Api.Failure Bytes → Result Failure Bytes
  to_be_signed pdf (ok stamped) = ok stamped
  to_be_signed pdf (err e) = if is_too_large e then ok pdf else err (stamp_failed e)

  abbrev pub reserved :
      Request → Bytes → Bytes → Bytes → Bytes → World S → World S × Result Failure SignResult
  reserved q pdf cert chain root a =
      let st = state_of sc a.vault in
      let (s', r) =
        make_reservation wire a.client st.device_id (p.sha512_hex pdf) q.file_name a.server in
      elim r [
        | err e ↦ (record a { server = s' }, err (call_failed e))
        | ok res ↦
            let (s'', stamped) = stamp_document wire a.client res.public_id pdf q.query s' in
            let a' = record a { server = s'' } in
            elim (to_be_signed pdf stamped) [
              | err e ↦ (a', err e)
              | ok to_sign ↦ signed q res pdf to_sign cert chain root a'
            ]
      ]

  -- `SignPDF`; `none` is a file that cannot be read.
  unfoldable pub sign_document :
      Request → Option Bytes → World S → World S × Result Failure SignResult
  sign_document q none a = (a, err unread)
  sign_document q (some pdf) a =
      if is_signed pdf then (a, err already_signed) else elim (chain_pem a.vault) [
        | err e ↦ (a, err no_chain)
        | ok chain ↦ elim (device_cert_pem a.vault) [
          | err e ↦ (a, err no_certificate)
          | ok cert ↦ elim (root_pem a.vault) [
            | err e ↦ (a, err no_root)
            | ok root ↦ reserved q pdf cert chain root a
          ]
        ]
      ]

  abbrev list_or_empty : Result Api.Failure Bytes → Bytes
  list_or_empty (err e) = []
  list_or_empty (ok crl) = crl

  abbrev chain_or_empty : World S → Bytes
  chain_or_empty a = elim (chain_pem a.vault) [ err e ↦ [] | ok chain ↦ chain ]

  -- `VerifyPDF`; without the server's list the document is checked without one.
  unfoldable pub verify_document : Option Bytes → World S → World S × Result Failure Report
  verify_document none a = (a, err unread)
  verify_document (some pdf) a = elim (root_pem a.vault) [
    | err e ↦ (a, err no_root)
    | ok root ↦
        let (s', r) = get_raw wire a.client ca_crl a.server in
        let a' = record a { server = s' } in
        elim (verify_pdf x v now pdf (local_options root (chain_or_empty a) (list_or_empty r))) [
          | err e ↦ (a', err (unverified (some e)))
          | ok report ↦ (a', ok report)
        ]
  ]
