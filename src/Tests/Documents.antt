-- ===== src/Tests/Documents.antt =====
-- Examples for the results on documents: their verification, submission and upload, and on access.
use mathlib.Core.List.{flatten}
use ttd_elektronik.Prelude.{
  ℕ, byte_length, trim_space, trim_left, trim_right, ap, String, true, Option, some, [], ◌∷◌, get,
  put, ◌≡◌, ◌↔◌, refl, in_order, ok, arith, values, inl, inr, strip_prefix,
}
use ttd_elektronik.Core.Certutil.{fingerprint_sha256}
use ttd_elektronik.Core.Verification.{
  Report, verify_pdf, verify_inner, report, judge, check_crl, public_id,
}
use ttd_elektronik.Core.Verification.Verdict.{IsVerified, verify_pdf-valid_iff}
use ttd_elektronik.Store.Types.{Bytes, Reservation, Signature, role_admin, role_super_admin}
use ttd_elektronik.Store.Devices.{device}
use ttd_elektronik.Store.Certificates.{certificate_by_serial}
use ttd_elektronik.Store.Signatures.{
  reservation, signature, create_signature, set_reservation_status, append, put_object,
}
use ttd_elektronik.Api.Types.{Claims, Response, write_json}
use ttd_elektronik.Api.Access.{authed}
use ttd_elektronik.Api.Access.Guard.{MayEnter, Carries, authed_sound, authed_complete}
use ttd_elektronik.Api.Server.{Server}
use ttd_elektronik.Api.Uploads.{Session, Uploads, healthy, lookup, create, h_upload_chunk}
use ttd_elektronik.Api.Uploads.Bounds.{IsSound, h_upload_chunk-IsSound, create-IsSound}
use ttd_elektronik.Api.Uploads.Resume.{HasReceived, send, send-HasReceived}
use ttd_elektronik.Api.Names.{
  sanitize_name, forward, base, after_slash, strip_slashes, has_slash, clean,
}
use ttd_elektronik.Api.Names.Safe.{IsSafeName, sanitize_name-IsSafeName}
use ttd_elektronik.Api.Verify.{
  VerifiedInfo, submit_options, strict_verify, lacks_magic, is_found, device_is_active,
  check_report, check_signature, check_certificate,
}
use ttd_elektronik.Api.Verify.Strict.{IsAccepted, strict_verify-IsAccepted}
use ttd_elektronik.Api.Submit.{
  h_submit_document, signed_input, submit_input, submit_verified, record_signature, verified_record,
}
use ttd_elektronik.Api.Submit.Outcome.{Established, IsSent, h_submit_document-new}
use ttd_elektronik.Api.Submit.Retry.{h_submit_document-again}
use ttd_elektronik.Tests.World.{
  world, world-IsConsistent, reserved, server, draw, claims, config, x509, pdfsign, pdf, key_of,
  uploads,
}

verify_pdf-valid_iff_example :
    ((rep : Report) × (verify_pdf x509 pdfsign 10 pdf (submit_options config []) ≡ ok rep)
      × (rep.valid ≡ true))
    ↔ IsVerified x509 pdfsign 10 pdf (submit_options config [])
verify_pdf-valid_iff_example = verify_pdf-valid_iff x509 pdfsign 10 pdf (submit_options config [])

abbrev info : VerifiedInfo
info = record {
  certificate_id = "c1";
  cert_serial = "07";
  cert_fingerprint = "fp";
  claimed_time = "t";
}

strict_verify-IsAccepted_example :
    IsAccepted x509 pdfsign config in_order 10 reserved pdf server info
unfolding strict_verify lacks_magic is_found device_is_active signature device verify_pdf
    verify_inner report judge check_crl check_report check_signature check_certificate public_id
    certificate_by_serial fingerprint_sha256 strip_prefix get values
strict_verify-IsAccepted_example =
    strict_verify-IsAccepted x509 pdfsign config in_order 10 reserved pdf server info
      world-IsConsistent refl

abbrev submitted : Server × Response
submitted =
    h_submit_document x509 pdfsign config in_order key_of claims draw healthy "p1" "" (some pdf)
      server

abbrev made : Signature
made = record (verified_record 10 reserved "p1" "sha" 6 info) { created_at = 10 }

h_submit_document-new_example :
    (res : Reservation) × (reservation "p1" world ≡ ok res)
    × (res.account_id ≡ "a1")
    × ("p1" ≡ res.public_id)
    × ((document : Bytes) × (size : ℕ) × IsSent x509 pdfsign config in_order key_of claims draw
          healthy "p1" ""
          (some pdf)
          server
          document
          size
        × Established x509 pdfsign config in_order key_of claims draw res server submitted.0 made
            document size)
unfolding h_submit_document signed_input submit_input submit_verified record_signature
    create_signature set_reservation_status append put_object reservation strict_verify lacks_magic
    is_found device_is_active signature device verify_pdf verify_inner report judge check_crl
    check_report check_signature check_certificate public_id certificate_by_serial
    fingerprint_sha256 strip_prefix get put values
h_submit_document-new_example =
    h_submit_document-new x509 pdfsign config in_order key_of claims draw healthy "p1" "" (some pdf)
      server "p1" made refl refl

-- The document is sent again, damaged.
h_submit_document-again_example :
    h_submit_document x509 pdfsign config in_order key_of claims draw healthy "p1" ""
      (some [])
      submitted.0
    ≡ submitted
unfolding h_submit_document signed_input submit_input submit_verified record_signature
    create_signature set_reservation_status append put_object reservation strict_verify lacks_magic
    is_found device_is_active signature device verify_pdf verify_inner report judge check_crl
    check_report check_signature check_certificate public_id certificate_by_serial
    fingerprint_sha256 strip_prefix get put values
h_submit_document-again_example =
    h_submit_document-again x509 pdfsign config in_order key_of claims draw healthy "p1" ""
      (some pdf) server world-IsConsistent refl draw healthy "" (some [])

uploads-IsSound : IsSound 8 uploads
unfolding get
uploads-IsSound = record {
  named = λ id s e. cc e;
  placed = λ id s e. cc e;
  filed = λ id s e. cc e;
  bounded = λ id s e. cc e;
}

abbrev begun : Uploads
begun = (create (some "00") 10 healthy "a1" uploads).0

h_upload_chunk-IsSound_example : IsSound 8 (h_upload_chunk "up_00" 0 8 11 healthy pdf "a1" begun).0
h_upload_chunk-IsSound_example =
    h_upload_chunk-IsSound 8 begun "up_00" 0 11 healthy pdf "a1"
      (create-IsSound 8 uploads uploads-IsSound (some "00") 10 healthy "a1")

abbrev session : Session
session = record { id = "up_00"; account = "a1"; path = "/tmp/up_00.part"; size = 0; updated = 10 }

begun-HasReceived : HasReceived begun "up_00" "a1" []
unfolding create lookup get put
begun-HasReceived = record {
  session = session;
  found = refl;
  named = refl;
  sized = refl;
  filed = refl;
}

-- A document of six bytes in two parts.
send-HasReceived_example :
    HasReceived
      (send 8 11 "up_00" "a1" ((0x25 ∷ 0x50 ∷ []) ∷ (0x44 ∷ 0x46 ∷ 0x2d ∷ 0x31 ∷ []) ∷ []) 0 begun)
      "up_00"
      "a1"
      (flatten ((0x25 ∷ 0x50 ∷ []) ∷ (0x44 ∷ 0x46 ∷ 0x2d ∷ 0x31 ∷ []) ∷ []))
unfolding flatten
send-HasReceived_example =
    send-HasReceived 8 11 "up_00" "a1" begun []
      ((0x25 ∷ 0x50 ∷ []) ∷ (0x44 ∷ 0x46 ∷ 0x2d ∷ 0x31 ∷ []) ∷ []) (omega arith) begun-HasReceived

abbrev operator : Claims
operator = record claims { role = role_super_admin }

abbrev parse : String → Option Claims
parse tok = some operator

abbrev empty_store : Claims → Server → Server × Response
empty_store c s = (record s { crl = 1 ∷ [] }, write_json 200 [])

may : MayEnter role_admin role_super_admin
may = inl (refl, inr refl)

carried : Carries parse "Bearer x" operator
carried = ("x", refl, λ e. cc e, refl)

ran : authed parse role_admin "Bearer x" empty_store server ≡ empty_store operator server
ran = authed_complete parse role_admin "Bearer x" empty_store server operator carried may

authed_sound_example :
    (c : Claims) × Carries parse "Bearer x" c
    × MayEnter role_admin c.role
    × (authed parse role_admin "Bearer x" empty_store server ≡ empty_store c server)
authed_sound_example =
    authed_sound parse role_admin "Bearer x" empty_store server
      (λ e. cc (ap (λ (s : Server × Response). s.0.crl) ran, ap (λ (s : Server). s.crl) e))

sanitize_name-IsSafeName_example : IsSafeName (sanitize_name "..\\rahasia/surat;1.pdf")
sanitize_name-IsSafeName_example = sanitize_name-IsSafeName "..\\rahasia/surat;1.pdf"

sanitized : sanitize_name "..\\rahasia/surat;1.pdf" ≡ "surat_1.pdf"
unfolding sanitize_name forward base after_slash strip_slashes has_slash clean byte_length
sanitized = refl

spared : trim_space "  a b " ≡ "a b"
unfolding trim_space trim_left trim_right
spared = refl
