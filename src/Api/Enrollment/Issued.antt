-- ===== src/Api/Enrollment/Issued.antt =====
-- `hSubmitCSR`: who gets a certificate at once.
use ttd_elektronik.Prelude.{
  String, Option, none, some, ◌≡◌, ◌≢◌, ap, arith, eq_iff, Result-cases, Option-cases, inl, inr,
}
use ttd_elektronik.Core.Certutil.{X509}
use ttd_elektronik.Core.Enrollment.{Requests, parse_and_validate_csr}
use ttd_elektronik.Store.Types.{Bytes, Device, Enrollment, account_active}
use ttd_elektronik.Store.Memory.{Memory}
use ttd_elektronik.Store.Accounts.{account}
use ttd_elektronik.Store.Devices.{create_enrollment}
use ttd_elektronik.Store.Signatures.{append}
use ttd_elektronik.Api.Types.{Claims, Draw}
use ttd_elektronik.Api.Server.{Config, Server}
use ttd_elektronik.Api.Accounts.{account_or_zero}
use ttd_elektronik.Api.Enrollment.{device_owned_by}
use ttd_elektronik.Api.Enrollment.Issue.{Ca, try_issue, h_submit_csr}

module _ (x : X509) (q : Requests) (cfg : Config) (d : Draw) (ca : Ca) (c : Claims) where
  try_issue-inactive :
      (dev : Device) (e : Enrollment) (m : Memory)
      → (account_or_zero c.sub m).status ≢ account_active
      → (try_issue x q cfg d ca c dev e m).0 ≡ m
  unfolding try_issue
  try_issue-inactive dev e m idle =
      ground (arith, idle, eq_iff (account_or_zero c.sub m).status account_active)

  -- Whatever a request for a certificate carries, it adds and changes no certificate where the
  -- account of the token is not active.
  pub h_submit_csr-inactive :
      (id : String) (body : Option Bytes) (s : Server)
      → (account_or_zero c.sub s.st).status ≢ account_active
      → (h_submit_csr x q cfg d ca c id body s).0.st.certificates ≡ s.st.certificates
  unfolding h_submit_csr create_enrollment append account
  h_submit_csr-inactive id none s idle = ground arith
  h_submit_csr-inactive id (some pem) s idle = elim (Option-cases (device_owned_by c id s.st)) [
    | inl foreign ↦ ground arith
    | inr (dev, mine) ↦ elim (Result-cases (parse_and_validate_csr x q pem)) [
      | inr (why, refused) ↦ ground arith
      | inl ((csr, info), parsed) ↦
          rw (mine, parsed, h_submit_csr)
            (ap (λ (m : Memory). m.certificates) (try_issue-inactive dev _ _ idle))
    ]
  ]
