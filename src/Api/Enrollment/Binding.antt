-- ===== src/Api/Enrollment/Binding.antt =====
-- `bindIssuedCert`: which certificates the server records, and for whom.
use ttd_elektronik.Prelude.{
  String, true, ok, err, ◌≡◌, same_bytes_iff, arith, eq_refl, get-put, Result-cases, Bool-cases,
  inl, inr,
}
use ttd_elektronik.Core.Certutil
use ttd_elektronik.Core.Certutil.{X509, CertInfo, parse_and_validate_certificate}
use ttd_elektronik.Core.Enrollment.{Requests, Request, CsrInfo, parse_and_validate_csr}
use ttd_elektronik.Store.Types.{Bytes, Enrollment, Certificate, cert_active}
use ttd_elektronik.Store.Memory.{Memory}
use ttd_elektronik.Store.Devices.{set_enrollment_status}
use ttd_elektronik.Store.Certificates.{create_certificate, certificate}
use ttd_elektronik.Store.Signatures.{append}
use ttd_elektronik.Api.Types.{Draw}
use ttd_elektronik.Api.Server.{Config}
use ttd_elektronik.Api.Enrollment.Issue.{bind_issued_cert, chain_ok, recorded}

module _ (x : X509) (q : Requests) (cfg : Config) (d : Draw) (e : Enrollment) (leaf : Bytes)
    (m : Memory) where
  -- What stands behind a certificate that was recorded.
  pub record IsBound (n : Memory) (stored : Certificate) : Type 0 where
    pub cert : Certutil.Certificate
    pub info : CertInfo
    pub profile : parse_and_validate_certificate x leaf d.now ≡ ok (cert, info)
    pub chained : chain_ok x q cfg d cert ≡ true
    pub csr : Request
    pub csr_info : CsrInfo
    pub requested : parse_and_validate_csr x q e.csr_pem ≡ ok (csr, csr_info)
    pub same_key : csr.public_key ≡ cert.public_key
    pub content : stored ≡ record {
      id = d.id 10;
      enrollment_id = e.id;
      device_id = e.device_id;
      account_id = e.account_id;
      serial = info.serial_number;
      fingerprint = info.fingerprint_sha256;
      pem = leaf;
      not_before = cert.not_before;
      not_after = cert.not_after;
      status = cert_active;
      revoked_at = 0;
      rev_reason = "";
    }
    pub held : certificate stored.id n ≡ ok stored

  -- Recording a certificate makes it findable under its id.
  recorded-held :
      (cert : Certutil.Certificate) (info : CertInfo)
      → certificate (d.id 10) (recorded x q cfg d e leaf cert info m).0
        ≡ ok (recorded x q cfg d e leaf cert info m).1
  unfolding certificate create_certificate set_enrollment_status append
  recorded-held cert info = ground (
    arith,
    get-put m.certificates (d.id 10) (d.id 10) (recorded x q cfg d e leaf cert info m).1,
    eq_refl (d.id 10),
  )

  -- A certificate is recorded only for the account and the device of the enrollment, only if it has
  -- the device profile, chains to the configured root, and carries the key of the enrolled request;
  -- it is then active and found under its id.
  pub bind_issued_cert-IsBound :
      (n : Memory) (stored : Certificate)
      → bind_issued_cert x q cfg d e leaf m ≡ (n, ok stored)
      → IsBound n stored
  unfolding bind_issued_cert create_certificate
  bind_issued_cert-IsBound n stored h =
      elim (Result-cases (parse_and_validate_certificate x leaf d.now)) [
        | inr (why, refused) ↦ absurd (ground arith)
        | inl ((cert, info), profile) ↦ elim (Bool-cases (chain_ok x q cfg d cert)) [
          | inr untrusted ↦ absurd (ground arith)
          | inl chained ↦ elim (Result-cases (parse_and_validate_csr x q e.csr_pem)) [
            | inr (why, unparsed) ↦ absurd (ground arith)
            | inl ((csr, csr_info), requested) ↦
                let ran : (n ≡ (recorded x q cfg d e leaf cert info m).0)
                    × (stored ≡ (recorded x q cfg d e leaf cert info m).1) =
                  ground arith in
                record {
                  cert = cert;
                  info = info;
                  profile = profile;
                  chained = chained;
                  csr = csr;
                  csr_info = csr_info;
                  requested = requested;
                  same_key = ground (arith, same_bytes_iff csr.public_key cert.public_key);
                  content = ran.1;
                  held = rw (ran.0, ran.1) (recorded-held cert info);
                }
          ]
        ]
      ]

  -- A refused certificate leaves the store alone.
  pub bind_issued_cert-refused :
      (n : Memory) (why : String) → bind_issued_cert x q cfg d e leaf m ≡ (n, err why) → n ≡ m
  unfolding bind_issued_cert
  bind_issued_cert-refused n why h =
      elim (Result-cases (parse_and_validate_certificate x leaf d.now)) [
        | inr (w, refused) ↦ ground arith
        | inl ((cert, info), profile) ↦ elim (Result-cases (parse_and_validate_csr x q e.csr_pem)) [
          | inr (w, unparsed) ↦ ground arith
          | inl ((csr, csr_info), requested) ↦ ground arith
        ]
      ]
