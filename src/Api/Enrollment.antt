-- ===== src/Api/Enrollment.antt =====
-- handlers.go: devices, enrollments, and the revocation of certificates.
pub mod Issue
pub mod Binding
pub mod Issued
use ttd_elektronik.Prelude.{
  ℕ, String, ◌&◌, Bool, true, false, not, ◌&&◌, ◌||◌, Option, none, some, List, [], ◌∷◌, ◌++◌,
  Result, ok, err, ◌==◌, if◌then◌else◌, same_bytes, or_else, Ranging,
}
use ttd_elektronik.Core.Certutil
use ttd_elektronik.Core.Certutil.{
  X509, CertInfo, parse_and_validate_certificate, parse_chain_pem, validate_certificate_chain,
}
use ttd_elektronik.Core.Enrollment.{Requests, Request, CsrInfo, parse_and_validate_csr, error_text}
use ttd_elektronik.Store.Types.{
  Bytes, Account, Device, zero_device, Enrollment, Certificate, zero_certificate, Error,
  account_active, device_lost, enrollment_approved, enrollment_issued, cert_active, cert_revoked,
  event,
}
use ttd_elektronik.Store.Memory.{Memory}
use ttd_elektronik.Store.Devices.{
  create_device, device, set_device_status, create_enrollment, enrollment, set_enrollment_status,
}
use ttd_elektronik.Store.Certificates.{
  create_certificate, certificate, certificate_by_device, revoke_certificate,
}
use ttd_elektronik.Api.Types.{
  Claims, Draw, Object, Response, file, write_json, write_err, log, audit, str,
}
use ttd_elektronik.Api.Server.{Config, Server}
use ttd_elektronik.Api.Accounts.{account_or_zero}

abbrev pub device_or_zero : String → Memory → Device
device_or_zero id m = elim (device id m) [ err e ↦ zero_device | ok v ↦ v ]

abbrev certificate_or_zero : String → Memory → Certificate
certificate_or_zero id m = elim (certificate id m) [ err e ↦ zero_certificate | ok c ↦ c ]

-- `deviceOwnedBy`
unfoldable pub device_owned_by : Claims → String → Memory → Option Device
device_owned_by c id m = elim (device id m) [
  | err e ↦ none
  | ok dev ↦ if not (dev.account_id == c.sub) then none else some dev
]

-- `hCreateDevice`; the input is the label and the platform, empty where the body does not decode.
unfoldable pub h_create_device : Claims → Draw → String → String → Server → Server × Response
h_create_device c d label platform s =
    let (st, dev) =
      create_device (d.id 0) d.now
        (record zero_device { account_id = c.sub; label = label; platform = platform }) s.st in
    (
      record s { st = audit (d.id 1) d.now "device.create" c dev.id "ok" dev.label st },
      write_json 201 (("device_id", str dev.id) ∷ ("status", str dev.status) ∷ []),
    )

-- `hReportLost`
unfoldable pub h_report_lost : Claims → Draw → String → Server → Server × Response
h_report_lost c d id s = elim (device_owned_by c id s.st) [
  | none ↦ (s, write_err 404 "device not found")
  | some dev ↦
      let st = (set_device_status dev.id device_lost s.st).0 in
      (
        record s { st = audit (d.id 0) d.now "device.report_lost" c dev.id "ok" "" st },
        write_json 200 (
            ("device_id", str dev.id)
            ∷ ("status", str device_lost)
            ∷ ("note", str "an admin must now revoke the device certificate and publish a new CRL")
            ∷ []),
      )
]

-- `hDeviceCertificate`
unfoldable pub h_device_certificate : Ranging → Claims → String → Server → Server × Response
h_device_certificate r c id s = elim (device_owned_by c id s.st) [
  | none ↦ (s, write_err 404 "device not found")
  | some dev ↦ elim (certificate_by_device r id s.st) [
    | err e ↦ (s, write_err 404 "no certificate issued yet")
    | ok cert ↦ (s, record { code = 200; body = file cert.pem })
  ]
]

-- `hExportEnrollment`
unfoldable pub h_export_enrollment : String → Server → Server × Response
h_export_enrollment id s = elim (enrollment id s.st) [
  | err e ↦ (s, write_err 404 "enrollment not found")
  | ok e ↦ (s, record { code = 200; body = file e.csr_pem })
]

-- `hApproveEnrollment`
unfoldable pub h_approve_enrollment : Draw → String → Server → Server × Response
h_approve_enrollment d id s =
    let (st, set) = set_enrollment_status id enrollment_approved s.st in
    elim set [
      | err e ↦ (record s { st = st }, write_err 404 "enrollment not found")
      | ok u ↦ (
        record s { st = log (d.id 0) d.now (event "enrollment.approve" "" "" "ok" id) st },
        write_json 200 (("enrollment_id", str id) ∷ ("status", str enrollment_approved) ∷ []),
      )
    ]

-- `hRevoke`
unfoldable pub h_revoke : Draw → String → String → Server → Server × Response
h_revoke d id reason s =
    let (st, done) = revoke_certificate id reason d.now s.st in
    elim done [
      | err e ↦ (record s { st = st }, write_err 404 "certificate not found")
      | ok u ↦
          let cert = certificate_or_zero id st in
          (
            record s {
              st =
                  log (d.id 0) d.now
                    (event "certificate.revoke" cert.account_id cert.device_id "ok"
                      (cert.serial & " " & reason))
                    st;
            },
            write_json 200 (("certificate_id", str id) ∷ ("status", str cert_revoked) ∷ []),
          )
    ]

-- `parseCRLBytes` and `hImportCRL`; `none` is a body that cannot be read.
unfoldable pub h_import_crl : X509 → Draw → Option Bytes → Server → Server × Response
h_import_crl x d none s = (s, write_err 400 "read")
h_import_crl x d (some body) s = elim (x.parse_crl (Certutil.der_of x body)) [
  | none ↦ (s, write_err 400 "not a parseable CRL: ")
  | some crl ↦ (
    record s { st = log (d.id 0) d.now (event "crl.import" "" "" "ok" "") s.st; crl = body },
    write_json 200 (("status", str "crl updated") ∷ []),
  )
]
