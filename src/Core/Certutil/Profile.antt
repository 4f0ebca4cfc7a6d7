-- ===== src/Core/Certutil/Profile.antt =====
-- The device-certificate profile: what the check accepts is what the profile asks for.
use ttd_elektronik.Prelude.{
  ℕ, ◌≤◌, true, false, ok, ◌≡◌, ◌↔◌, refl, ap, ◌∙◌, inl, inr, Result-cases, arith,
}
use ttd_elektronik.Store.Types.{Bytes}
use ttd_elektronik.Core.Certutil.{
  Certificate, CertInfo, X509, check_profile, describe, parse_and_validate_certificate,
  parse_certificate_pem, carries_eku,
}

-- The profile in the words of the package's comment.
pub record HasProfile (at : ℕ) (c : Certificate) : Type 0 where
  pub mldsa : c.is_mldsa ≡ true
  pub begun : c.not_before ≤ at
  pub running : at ≤ c.not_after
  pub leaf : c.is_ca ≡ false
  pub document_signing : carries_eku c.unknown_ekus ≡ true

module _ (x : X509) where
  check_profile_iff :
      (at : ℕ) (c d : Certificate) (info : CertInfo)
      → (check_profile x at c ≡ ok (d, info)) ↔ (HasProfile at d × (c ≡ d) × (info ≡ describe x d))
  unfolding check_profile
  check_profile_iff at c d info = (λ e. ground arith, λ h. ground arith)

  -- A certificate is accepted exactly if the first CERTIFICATE block parses and has the profile:
  -- an ML-DSA key, valid at that time, no CA, with the document-signing usage.
  pub parse_and_validate_certificate_iff :
      (pem : Bytes) (at : ℕ) (c : Certificate) (info : CertInfo)
      → (parse_and_validate_certificate x pem at ≡ ok (c, info))
        ↔ ((parse_certificate_pem x pem ≡ ok c) × HasProfile at c × (info ≡ describe x c))
  unfolding parse_and_validate_certificate
  parse_and_validate_certificate_iff pem at c info = (
    λ e. elim (Result-cases (parse_certificate_pem x pem)) [
      | inr (bad, failed) ↦ absurd (ground arith)
      | inl (d, read) ↦
          let (profile, same, same_info) = (check_profile_iff at d c info).0 (ground arith) in
          (read ∙ ap ok same, profile, same_info)
    ],
    λ (read, profile, same_info).
        rw (read, parse_and_validate_certificate)
          ((check_profile_iff at c c info).1 (profile, refl, same_info)),
  )
