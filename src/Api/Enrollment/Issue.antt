-- ===== src/Api/Enrollment/Issue.antt =====
-- handlers.go and devissue.go: how a certificate is issued for an enrollment, by hand or by the CA that
-- is online. `Ca` stands for the `ca-admin` process that the server runs.
use ttd_elektronik.Prelude.{
  String, ◌&◌, Bool, false, not, ◌&&◌, ◌||◌, Option, none, some, List, [], ◌∷◌, Result, ok, err,
  ◌==◌, if◌then◌else◌, same_bytes, or_else,
}
use ttd_elektronik.Core.Certutil
use ttd_elektronik.Core.Certutil.{
  X509, CertInfo, parse_and_validate_certificate, parse_chain_pem, validate_certificate_chain,
}
use ttd_elektronik.Core.Enrollment.{Requests, parse_and_validate_csr, error_text}
use ttd_elektronik.Store.Types.{
  Bytes, Device, Enrollment, Certificate, zero_certificate, account_active, enrollment_issued,
  cert_active, event,
}
use ttd_elektronik.Store.Memory.{Memory}
use ttd_elektronik.Store.Devices.{create_enrollment, enrollment, set_enrollment_status}
use ttd_elektronik.Store.Certificates.{create_certificate}
use ttd_elektronik.Api.Types.{
  Claims, Draw, Object, Response, write_json, write_err, log, audit, str,
}
use ttd_elektronik.Api.Server.{Config, Server}
use ttd_elektronik.Api.Accounts.{account_or_zero}
use ttd_elektronik.Api.Enrollment.{device_or_zero, device_owned_by}

-- The arguments of `ca-admin issue`.
pub record IssueRequest : Type 0 where
  pub csr : Bytes
  pub account : String
  pub device : String
  pub cn : String
  pub org : String

pub record Ca : Type 0 where
  pub issue : IssueRequest → Result String Bytes

module _ (x : X509) (q : Requests) (cfg : Config) (d : Draw) where
  abbrev pub intermediates : List Certutil.Certificate
  intermediates = elim (parse_chain_pem x cfg.ca_chain_pem) [ err e ↦ [] | ok cs ↦ cs ]

  abbrev pub chain_ok : Certutil.Certificate → Bool
  chain_ok cert = elim (validate_certificate_chain x cert intermediates cfg.root_ca_pem d.now) [
    | err e ↦ false
    | ok trusted ↦ trusted
  ]

  -- The part of `bindIssuedCert` that records.
  abbrev pub recorded :
      Enrollment → Bytes → Certutil.Certificate → CertInfo → Memory → Memory × Certificate
  recorded e leaf cert info m =
      let (m', stored) =
        create_certificate (d.id 10)
          (record zero_certificate {
            enrollment_id = e.id;
            device_id = e.device_id;
            account_id = e.account_id;
            serial = info.serial_number;
            fingerprint = info.fingerprint_sha256;
            pem = leaf;
            not_before = cert.not_before;
            not_after = cert.not_after;
            status = cert_active;
          })
          m in
      let m'' = (set_enrollment_status e.id enrollment_issued m').0 in
      (
        log (d.id 11) d.now (event "certificate.issue" e.account_id e.device_id "ok" stored.serial)
            m'',
        stored,
      )

  -- `bindIssuedCert`
  unfoldable pub bind_issued_cert : Enrollment → Bytes → Memory → Memory × Result String Certificate
  bind_issued_cert e leaf m = elim (parse_and_validate_certificate x leaf d.now) [
    | err why ↦ (m, err ("certificate rejected: " & Certutil.error_text why))
    | ok (cert, info) ↦
        if not (chain_ok cert)
        then (m, err "certificate does not chain to the configured Root CA")
        else elim (parse_and_validate_csr x q e.csr_pem) [
          | err why ↦ (m, err "stored CSR no longer parses")
          | ok (csr, csr_info) ↦
              if not csr.is_mldsa
                || not cert.is_mldsa
                || not (same_bytes csr.public_key cert.public_key)
              then (m, err "certificate public key does not match the enrolled CSR")
              else let (m', stored) = recorded e leaf cert info m in (m', ok stored)
        ]
  ]

  abbrev pub issued : Certificate → Response
  issued stored = write_json 201 (
      ("certificate_id", str stored.id)
      ∷ ("serial", str stored.serial)
      ∷ ("fingerprint", str stored.fingerprint)
      ∷ [])

  abbrev bound : Memory × Result String Certificate → Server → Server × Response
  bound (m, err why) s = (record s { st = m }, write_err 400 why)
  bound (m, ok stored) s = (record s { st = m }, issued stored)

  -- `hIssueCertificate`; `none` is a body that cannot be read.
  unfoldable pub h_issue_certificate : String → Option Bytes → Server → Server × Response
  h_issue_certificate id body s = elim (enrollment id s.st) [
    | err e ↦ (s, write_err 404 "enrollment not found")
    | ok e ↦ elim body [
      | none ↦ (s, write_err 400 "read")
      | some leaf ↦ bound (bind_issued_cert e leaf s.st) s
    ]
  ]

  module _ (ca : Ca) where
    -- `issueViaCA`
    unfoldable pub issue_via_ca : Enrollment → Memory → Result String Bytes
    issue_via_ca e m =
        if not cfg.lab_issuer
        then err "no CA issuer configured"
        else let acc = account_or_zero e.account_id m in
          let dev = device_or_zero e.device_id m in
          ca.issue (record {
            csr = e.csr_pem;
            account = or_else acc.email e.account_id;
            device = or_else dev.label e.device_id;
            cn = or_else acc.full_name (or_else acc.display_name (or_else acc.email "Lab Device"));
            org = or_else acc.organization (or_else cfg.issuer_org "PQC PDF Sign (lab)");
          })

    -- `hLabIssue`
    unfoldable pub h_lab_issue : String → Server → Server × Response
    h_lab_issue id s =
        if not cfg.lab_issuer
        then (s, write_err 404 "lab issuer not enabled")
        else elim (enrollment id s.st) [
          | err e ↦ (s, write_err 404 "enrollment not found")
          | ok e ↦ elim (issue_via_ca e s.st) [
            | err why ↦ (s, write_err 502 ("issuance failed: " & why))
            | ok leaf ↦ bound (bind_issued_cert e leaf s.st) s
          ]
        ]

    -- The fields that the answer to a request for a certificate may have beyond the enrollment's.
    abbrev pending : Claims → Device → String → Memory → Memory × Object
    pending c dev why m = (
      audit (d.id 12) d.now "certificate.issue" c dev.id "fail" why m,
      ("note", str "penerbitan sertifikat tertunda, hubungi admin") ∷ [],
    )

    abbrev issued_now :
        Claims → Device → Memory × Result String Certificate → Memory × String × Object
    issued_now c dev (m, err why) = let (m', note) = pending c dev why m in (m', "", note)
    issued_now c dev (m, ok stored) =
        (m, enrollment_issued, ("certificate_serial", str stored.serial) ∷ [])

    -- The automatic issuance: the store, the status it changes ("" where it does not), more fields.
    unfoldable pub try_issue : Claims → Device → Enrollment → Memory → Memory × String × Object
    try_issue c dev e m =
        let acc = account_or_zero c.sub m in
        if cfg.lab_issuer && acc.status == account_active
        then elim (issue_via_ca e m) [
          | err why ↦ let (m', note) = pending c dev why m in (m', "", note)
          | ok leaf ↦ issued_now c dev (bind_issued_cert e leaf m)
        ]
        else (m, "", [])

    -- `hSubmitCSR`; `none` is a body that cannot be read.
    unfoldable pub h_submit_csr : Claims → String → Option Bytes → Server → Server × Response
    h_submit_csr c id body s = elim (device_owned_by c id s.st) [
      | none ↦ (s, write_err 404 "device not found")
      | some dev ↦ elim body [
        | none ↦ (s, write_err 400 "read")
        | some pem ↦ elim (parse_and_validate_csr x q pem) [
          | err why ↦ (
            record s {
              st = audit (d.id 0) d.now "csr.submit" c dev.id "reject" (error_text why) s.st;
            },
            write_err 400 ("CSR rejected: " & error_text why),
          )
          | ok (csr, info) ↦
              let (m, e) =
                create_enrollment (d.id 1) d.now
                  (record {
                    id = "";
                    device_id = dev.id;
                    account_id = c.sub;
                    csr_pem = pem;
                    csr_key_fp = info.public_key_fp;
                    status = "";
                    created_at = 0;
                  })
                  s.st in
              let m' = audit (d.id 2) d.now "csr.submit" c dev.id "accept" e.id m in
              let (m'', status, more) = try_issue c dev e m' in
              (
                record s { st = m'' },
                write_json 201 (
                    ("enrollment_id", str e.id) ∷ ("status", str (or_else status e.status)) ∷ more),
              )
        ]
      ]
    ]
