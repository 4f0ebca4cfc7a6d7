-- ===== src/Api/Submit.antt =====
-- handlers.go: a reservation, and the submission of the signed document for it.
pub mod Outcome
pub mod Retry
use ttd_elektronik.Prelude.{
  ℕ, ◌+◌, ◌*◌, String, ◌&◌, Bool, true, false, not, ◌||◌, Option, none, some, List, [], ◌∷◌, Result,
  ok, err, ◌==◌, if◌then◌else◌, length, take, get, leb, ltb, Ranging,
}
use ttd_elektronik.Core.Certutil.{X509}
use ttd_elektronik.Core.Verification.{Pdfsign}
use ttd_elektronik.Store.Types.{
  Bytes, Device, Certificate, Reservation, Signature, Error, device_active, cert_active,
  reservation_accepted, verification_accepted, verification_stored_only,
}
use ttd_elektronik.Store.Memory.{Memory}
use ttd_elektronik.Store.Devices.{device}
use ttd_elektronik.Store.Certificates.{certificate_by_device}
use ttd_elektronik.Store.Signatures.{
  create_reservation, reservation, set_reservation_status, create_signature, signature, put_object,
  put_object_from,
}
use ttd_elektronik.Api.Types.{
  Claims, Draw, Object, Response, write_json, write_err, audit, str, time,
}
use ttd_elektronik.Api.Uploads.{Disk, Session, lookup, discard}
use ttd_elektronik.Api.Server.{Config, Server}
use ttd_elektronik.Api.Names.{strip_slashes, sanitize_name}
use ttd_elektronik.Api.Verify.{VerifiedInfo, strict_verify}

-- The body of a reserve request.
pub record ReserveInput : Type 0 where
  pub device_id : String
  pub original_sha512 : String
  pub file_name : String

-- `publicBase` and `verifyURL`
unfoldable pub public_base : Config → String
public_base cfg =
    let base = strip_slashes cfg.public_base_url in
    if base == "" then "http://localhost:8443" else base

abbrev pub verify_url : Config → String → String
verify_url cfg id = public_base cfg & "/v/" & id

module _ (r : Ranging) (cfg : Config) where
  abbrev reserved : Claims → Draw → ReserveInput → Device → Server → Server × Response
  reserved c d in_ dev s =
      let (st, res) =
        create_reservation (d.id 0) d.now
          (record {
            public_id = "";
            account_id = c.sub;
            device_id = dev.id;
            original_sha512 = in_.original_sha512;
            file_name = sanitize_name in_.file_name;
            status = "";
            created_at = 0;
            expires_at = d.now + 2 * 60 * 60 * 1000000000;
          })
          s.st in
      (
        record s { st = audit (d.id 1) d.now "signature.reserve" c dev.id "ok" res.public_id st },
        write_json 201 (
            ("public_id", str res.public_id)
            ∷ ("verification_url", str (verify_url cfg res.public_id))
            ∷ ("expires_at", time res.expires_at)
            ∷ []),
      )

  abbrev certified :
      Claims → Draw → ReserveInput → Device → Result Error Certificate → Server → Server × Response
  certified c d in_ dev (err e) s = (s, write_err 403 "device has no active certificate")
  certified c d in_ dev (ok cert) s =
      if not (cert.status == cert_active)
      then (s, write_err 403 "device has no active certificate")
      else reserved c d in_ dev s

  -- `hReserve`; `none` is a body that does not decode.
  unfoldable pub h_reserve : Claims → Draw → Option ReserveInput → Server → Server × Response
  h_reserve c d none s = (s, write_err 400 "device_id is required")
  h_reserve c d (some in_) s =
      if in_.device_id == ""
      then (s, write_err 400 "device_id is required")
      else elim (device in_.device_id s.st) [
        | err e ↦ (s, write_err 404 "device not found")
        | ok dev ↦
            if not (dev.account_id == c.sub)
            then (s, write_err 404 "device not found")
            else if not (dev.status == device_active)
            then (s, write_err 403 ("device is " & dev.status))
            else certified c d in_ dev (certificate_by_device r dev.id s.st) s
      ]

unfoldable pub submission_result : Signature → Object
submission_result sig =
    let status =
      if sig.verification_status == verification_stored_only
      then "stored_unverified"
      else "accepted" in
    ("public_id", str sig.public_id)
    ∷ ("status", str status)
    ∷ ("verification_status", str sig.verification_status)
    ∷ ("signed_pdf_sha512", str sig.signed_sha512)
    ∷ ("certificate_serial", str sig.cert_serial)
    ∷ ("server_received_at", time sig.server_received_at)
    ∷ []

-- The signed PDF: its bytes (`none` where reading them fails), the size that decides the tier, and
-- the upload session that it comes from, if any.
pub record Input : Type 0 where
  pub bytes : Option Bytes
  pub size : ℕ
  pub session : Option Session

pub data InputError : Type 0 where
  no_upload too_large unreadable : InputError

-- `signedInput`: `upload_id` is "" where the query has none; `body` is `none` where it cannot be
-- read.
unfoldable pub signed_input :
    ℕ → Disk → String → Option Bytes → String → Server → Result InputError Input
signed_input max_upload disk upload_id body account s =
    if not (upload_id == "")
    then elim (lookup upload_id account s.uploads) [
      | none ↦ err no_upload
      | some sess ↦ elim (get s.uploads.files sess.path) [
        | none ↦ err unreadable
        | some content ↦
            if not disk.opens
            then err unreadable
            else ok (record {
              bytes = elim disk.fails_after [ none ↦ some content | some k ↦ none ];
              size = sess.size;
              session = some sess;
            })
      ]
    ]
    else elim body [
      | none ↦ err unreadable
      | some b ↦
          let got = take (max_upload + 1) b in
          if ltb max_upload (length got)
          then err too_large
          else ok (record { bytes = some got; size = length got; session = none })
    ]

abbrev pub input_error : InputError → Response
input_error no_upload = write_err 404 "sesi unggah tidak ditemukan"
input_error too_large = write_err 413 "PDF exceeds the upload limit"
input_error unreadable = write_err 400 "read"

-- The record of a submission, without and with what the strict checks established.
abbrev pub stored_record : ℕ → Reservation → String → String → ℕ → Signature
stored_record now res key sha size = record {
  public_id = res.public_id;
  account_id = res.account_id;
  device_id = res.device_id;
  certificate_id = "";
  cert_serial = "";
  cert_fingerprint = "";
  algorithm = "ML-DSA-65";
  pdf_profile = "PAdES_B";
  original_sha512 = res.original_sha512;
  signed_sha512 = sha;
  client_claimed_signing_time = "";
  server_received_at = now;
  storage_object_key = key;
  signed_size = size;
  verification_status = verification_stored_only;
  created_at = 0;
}

abbrev pub verified_record : ℕ → Reservation → String → String → ℕ → VerifiedInfo → Signature
verified_record now res key sha size info = record (stored_record now res key sha size) {
  certificate_id = info.certificate_id;
  cert_serial = info.cert_serial;
  cert_fingerprint = info.cert_fingerprint;
  client_claimed_signing_time = info.claimed_time;
  verification_status = verification_accepted;
}

-- `key_of` prints the object key of a submission at an instant.
module _ (x : X509) (p : Pdfsign) (cfg : Config) (r : Ranging) (key_of : ℕ → String → String) where
  -- What follows a `CreateSignature` that succeeded.
  abbrev pub finish :
      Claims → Draw → Reservation → Option Session → Signature → Server → Server × Response
  finish c d res sess sig s =
      let st = (set_reservation_status res.public_id reservation_accepted s.st).0 in
      let s' = record s {
        st =
            audit (d.id 0) d.now "signature.submit" c res.device_id "accept"
              (res.public_id & " " & sig.verification_status) st;
        uploads = elim sess [ none ↦ s.uploads | some u ↦ discard u s.uploads ];
      } in
      (s', write_json 200 (submission_result sig))

  -- `CreateSignature` and its answer.
  unfoldable pub record_signature :
      Claims → Draw → Reservation → Option Session → Signature → Server → Server × Response
  record_signature c d res sess sig s =
      let (st, made) = create_signature d.now sig s.st in
      elim made [
        | err e ↦ (record s { st = st }, write_err 409 "submission already recorded")
        | ok sig' ↦ finish c d res sess sig' (record s { st = st })
      ]

  -- The verified tier.
  unfoldable pub submit_verified :
      Claims → Draw → Reservation → Option Session → Option Bytes → Server → Server × Response
  submit_verified c d res sess none s = (s, write_err 400 "read")
  submit_verified c d res sess (some body) s = elim (strict_verify x p cfg r d.now res body s) [
    | err reason ↦ (
      record s {
        st = audit (d.id 0) d.now "signature.submit" c res.device_id "reject" reason s.st;
      },
      write_err 422 reason,
    )
    | ok info ↦
        let key = key_of d.now res.public_id in
        record_signature c d res sess
          (verified_record d.now res key (p.sha512_hex body) (length body) info)
          (record s { st = put_object key body s.st })
  ]

  -- The tier that is only stored.
  unfoldable pub submit_stored :
      Claims → Draw → Reservation → Option Session → Option Bytes → ℕ → Server → Server × Response
  submit_stored c d res sess none size s = (s, write_err 500 "store")
  submit_stored c d res sess (some body) size s =
      let key = key_of d.now res.public_id in
      record_signature c d res sess (stored_record d.now res key (p.sha512_hex body) size)
        (record s { st = (put_object_from key (some body) s.st).0 })

  unfoldable pub submit_input :
      Claims → Draw → Reservation → Result InputError Input → Server → Server × Response
  submit_input c d res (err e) s = (s, input_error e)
  submit_input c d res (ok in_) s =
      if leb in_.size cfg.max_verify_bytes
      then submit_verified c d res in_.session in_.bytes s
      else submit_stored c d res in_.session in_.bytes in_.size s

  -- `hSubmitDocument`
  unfoldable pub h_submit_document :
      Claims → Draw → Disk → String → String → Option Bytes → Server → Server × Response
  h_submit_document c d disk public_id upload_id body s = elim (reservation public_id s.st) [
    | err e ↦ (s, write_err 404 "reservation not found")
    | ok res ↦
        if not (res.account_id == c.sub)
        then (s, write_err 404 "reservation not found")
        else let fresh =
            submit_input c d res (signed_input cfg.max_upload_bytes disk upload_id body c.sub s)
              s in
          if res.status == reservation_accepted
          then elim (signature res.public_id s.st) [
            | ok sig ↦ (s, write_json 200 (submission_result sig))
            | err e ↦ fresh
          ]
          else fresh
  ]
