-- ===== src/Client/Api.antt =====
-- apps/windows/internal/apiclient/client.go: the client's calls of the server. A `Call` is one request,
-- typed; the network and the server behind it are the parameter `wire`, which takes the token, the
-- call and the state of the world and gives a response, or none where the transport fails.
use ttd_elektronik.Prelude.{
  take, ◌*◌, ℕ, String, ◌&◌, Bool, false, Option, none, some, List, ◌∷◌, Result, ok, err,
  if◌then◌else◌, ◌==◌, leb, eqb,
}
use ttd_elektronik.Store.Types.{Bytes}
use ttd_elektronik.Api.Types.{str, num, Object, json, file, Body, Response}

-- A body of a submission: in the request, or the id of a resumable upload.
pub data Payload : Type 0 where
  inline : Bytes → Payload
  uploaded : String → Payload

pub data Call : Type 0 where
  register : Object → Call
  login : String → String → Call
  create_device : String → String → Call
  submit_csr : String → Bytes → Call
  device_certificate : String → Call
  report_lost : String → Call
  list_enrollments : Call
  export_csr : String → Call
  approve_enrollment : String → Call
  issue_certificate : String → Bytes → Call
  revoke_certificate : String → String → Call
  root_ca : Call
  ca_chain : Call
  ca_crl : Call
  reserve : String → String → String → Call
  stamp : String → Object → Payload → Call
  put_document : String → Payload → Call
  create_upload : Call
  patch_upload : String → ℕ → Bytes → Call
  my_signatures : Call
  verify : Bytes → Call

-- The method and the path of a call, without its query.
abbrev pub method : Call → String
method (device_certificate d) = "GET"
method list_enrollments = "GET"
method (export_csr e) = "GET"
method root_ca = "GET"
method ca_chain = "GET"
method ca_crl = "GET"
method my_signatures = "GET"
method (put_document id p) = "PUT"
method (patch_upload id offset chunk) = "PATCH"
method _ = "POST"

abbrev pub path : Call → String
path (register fields) = "/api/v1/auth/register"
path (login email password) = "/api/v1/auth/login"
path (create_device label platform) = "/api/v1/devices"
path (submit_csr d csr) = "/api/v1/devices/" & d & "/csr"
path (device_certificate d) = "/api/v1/devices/" & d & "/certificate"
path (report_lost d) = "/api/v1/devices/" & d & "/report-lost"
path list_enrollments = "/api/v1/admin/enrollments"
path (export_csr e) = "/api/v1/admin/enrollments/" & e & "/export"
path (approve_enrollment e) = "/api/v1/admin/enrollments/" & e & "/approve"
path (issue_certificate e pem) = "/api/v1/admin/enrollments/" & e & "/certificate"
path (revoke_certificate c reason) = "/api/v1/admin/certificates/" & c & "/revoke"
path root_ca = "/api/v1/public/ca/root.crt"
path ca_chain = "/api/v1/public/ca/chain.pem"
path ca_crl = "/api/v1/public/ca/crl.pem"
path (reserve d sha name) = "/api/v1/signatures/reserve"
path (stamp id query p) = "/api/v1/signatures/" & id & "/stamp"
path (put_document id p) = "/api/v1/signatures/" & id & "/document"
path create_upload = "/api/v1/uploads"
path (patch_upload id offset chunk) = "/api/v1/uploads/" & id
path my_signatures = "/api/v1/me/signatures"
path (verify pdf) = "/api/v1/verify"

-- The text of an error: the field `error` of the answer or, without one, its trimmed body.
pub data Message : Type 0 where
  told : String → Message
  whole : Body → Message

pub data Failure : Type 0 where
  transport no_token no_upload_id not_yet_issued : Failure
  api_error : ℕ → Message → Failure
  stuck_at : ℕ → Failure
  out_of_fuel : Failure

-- `IsTooLarge`
abbrev pub is_too_large : Failure → Bool
is_too_large (api_error status msg) = eqb status 413
is_too_large _ = false

-- A field of a decoded answer, as the Go zero value where it is missing or of another type.
abbrev pub text_in : String → Object → String
text_in name List.[] = ""
text_in name ((key, str s) ∷ fields) = if key == name then s else text_in name fields
text_in name ((key, _) ∷ fields) = if key == name then "" else text_in name fields

abbrev pub number_in : String → Object → ℕ
number_in name List.[] = 0
number_in name ((key, num n) ∷ fields) = if key == name then n else number_in name fields
number_in name ((key, _) ∷ fields) = if key == name then 0 else number_in name fields

abbrev pub fields_of : Response → Object
fields_of r = elim r.body [ json fields ↦ fields | _ ↦ List.[] ]

-- What is read of an answer at most. A JSON answer is far below it.
abbrev pub response_limit : ℕ
response_limit = 64 * 1048576

abbrev pub bytes_of : Response → Bytes
bytes_of r = elim r.body [ file b ↦ take response_limit b | _ ↦ List.[] ]

abbrev message_of : Response → Message
message_of r =
    let text = text_in "error" (fields_of r) in if text == "" then whole r.body else told text

pub record Client : Type 0 where
  pub base : String
  pub token : String

pub record Reservation : Type 0 where
  pub public_id : String
  pub verification_url : String
  pub expires_at : String

module _ {S : Type 0} (wire : String → Call → S → S × Option Response) (c : Client) where
  -- `do`
  unfoldable pub do_call : Call → S → S × Result Failure Response
  do_call call s =
      let (s', response) = wire c.token call s in
      elim response [
        | none ↦ (s', err transport)
        | some r ↦ (s', if leb 400 r.code then err (api_error r.code (message_of r)) else ok r)
      ]

  -- A call of which one part of the answer is used.
  abbrev pub ask : {A : Type 0} → (Response → A) → Call → S → S × Result Failure A
  ask part call s =
      let (s', r) = do_call call s in elim r [ err e ↦ (s', err e) | ok r ↦ (s', ok (part r)) ]

  abbrev pub nothing : Response → Unit {0}
  nothing r = tt

  -- `Register`: the id, the status and the message.
  unfoldable pub register_account :
      String
      → String
      → String
      → String
      → String
      → String
      → S
      → S × Result Failure (String × String × String)
  register_account full_name org email password position nip =
      ask
        (λ r. (
          text_in "account_id" (fields_of r),
          text_in "status" (fields_of r),
          text_in "message" (fields_of r),
        ))
        (register (
          ("email", str email)
          ∷ ("password", str password)
          ∷ ("full_name", str full_name)
          ∷ ("organization", str org)
          ∷ ("display_name", str full_name)
          ∷ ("position", str position)
          ∷ ("nip", str nip)
          ∷ List.[]))

  abbrev with_token : Response → Result Failure Client
  with_token r =
      let token = text_in "access_token" (fields_of r) in
      if token == "" then err no_token else ok (record c { token = token })

  -- `Login`
  unfoldable pub log_in : String → String → S → S × Result Failure Client
  log_in email password s =
      let (s', r) = do_call (login email password) s in
      elim r [ err e ↦ (s', err e) | ok r ↦ (s', with_token r) ]

  -- `CreateDevice`, `SubmitCSR`
  unfoldable pub make_device : String → String → S → S × Result Failure String
  make_device label platform =
      ask (λ r. text_in "device_id" (fields_of r)) (create_device label platform)

  unfoldable pub send_csr : String → Bytes → S → S × Result Failure String
  send_csr device csr = ask (λ r. text_in "enrollment_id" (fields_of r)) (submit_csr device csr)

  -- A 404 is told apart from the other errors.
  abbrev pub awaited : Result Failure Response → Result Failure Bytes
  awaited (ok r) = ok (bytes_of r)
  awaited (err (api_error status msg)) =
      if eqb status 404 then err not_yet_issued else err (api_error status msg)
  awaited (err e) = err e

  -- `DeviceCertificate`
  unfoldable pub fetch_certificate : String → S → S × Result Failure Bytes
  fetch_certificate device s =
      let (s', r) = do_call (device_certificate device) s in (s', awaited r)

  -- `ReportLost`
  unfoldable pub tell_lost : String → S → S × Result Failure (Unit {0})
  tell_lost device = ask nothing (report_lost device)

  -- The calls of an admin: `ExportEnrollmentCSR`, `ApproveEnrollment`, `IssueCertificate`,
  -- `RevokeCertificate`
  unfoldable pub export_enrollment : String → S → S × Result Failure Bytes
  export_enrollment e = ask bytes_of (export_csr e)

  unfoldable pub approve : String → S → S × Result Failure (Unit {0})
  approve e = ask nothing (approve_enrollment e)

  unfoldable pub issue : String → Bytes → S → S × Result Failure Object
  issue e pem = ask fields_of (issue_certificate e pem)

  unfoldable pub revoke : String → String → S → S × Result Failure (Unit {0})
  revoke id reason = ask nothing (revoke_certificate id reason)

  -- `getRaw`, of `PublicRootCA`, `PublicChain` and `PublicCRL`
  unfoldable pub get_raw : Call → S → S × Result Failure Bytes
  get_raw = ask bytes_of

  -- `Reserve`
  unfoldable pub make_reservation : String → String → String → S → S × Result Failure Reservation
  make_reservation device sha name =
      ask
        (λ r. record {
          public_id = text_in "public_id" (fields_of r);
          verification_url = text_in "verification_url" (fields_of r);
          expires_at = text_in "expires_at" (fields_of r);
        })
        (reserve device sha name)
