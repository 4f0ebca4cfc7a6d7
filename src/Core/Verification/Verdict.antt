-- ===== src/Core/Verification/Verdict.antt =====
-- What a positive verdict of the verifier means, and when it is given.
use ttd_elektronik.Prelude.{
  ℕ, ◌≤◌, String, Bool, true, false, not, ◌&&◌, some, List, [], ◌∷◌, ok, err, ◌≡◌, ◌≢◌, ◌↔◌, refl,
  sym, ap, ◌∙◌, arith, All, eqb, length, if◌then◌else◌, Option-cases, inl, inr,
}
use ttd_elektronik.Store.Types.{Bytes}
use ttd_elektronik.Core.Certutil.{Certificate, X509, pool, validate_crl}
use ttd_elektronik.Core.Verification.{
  Options, SignatureResult, Report, PdfSignature, Parse, parsed, Pdfsign, crl_issuer_for, check_crl,
  judge, judge_all, all_valid, extra_certificates, report, verify_inner, verify_pdf, max_pdf_bytes,
  require_mldsa, identified, initial,
}

module _ (x : X509) where
  -- The supplied list is accepted and names the certificate.
  abbrev pub listed : Bytes → List Certificate → ℕ → Certificate → Bool
  listed [] extra at c = false
  listed (b ∷ bs) extra at c = elim (validate_crl x (b ∷ bs) (crl_issuer_for x c extra) c at) [
    | err e ↦ false
    | ok st ↦ st.revoked
  ]

  -- A signature that deserves trust: the parser found it valid, it carries a certificate, which is
  -- ML-DSA where that is required and not on the list.
  pub record IsTrusted (o : Options) (at : ℕ) (extra : List Certificate) (s : PdfSignature)
      : Type 0 where
    pub valid : s.valid ≡ true
    pub certificate : Certificate
    pub carried : s.certificate ≡ some certificate
    pub profile : o.require_mldsa_only && not certificate.is_mldsa ≡ false
    pub unlisted : listed o.crl_pem extra at certificate ≡ false

  check_crl-valid :
      (crl : Bytes) (extra : List Certificate) (at : ℕ) (c : Certificate) (sr : SignatureResult)
      → (check_crl x crl extra at c sr).valid ≡ (sr.valid && not (listed crl extra at c))
  unfolding check_crl
  check_crl-valid [] extra at c sr = ground arith
  check_crl-valid (b ∷ bs) extra at c sr = ground arith

  module _ (rfc3339 : ℕ → String) (o : Options) (at : ℕ) (extra : List Certificate) where
    judge-IsTrusted :
        (s : PdfSignature) → (judge x rfc3339 o at extra s).valid ≡ true → IsTrusted o at extra s
    unfolding judge
    judge-IsTrusted s e = elim (Option-cases s.certificate) [
      | inl bare ↦ absurd (ground arith)
      | inr (c, carried) ↦
          let step =
            check_crl-valid o.crl_pem extra at c
              (require_mldsa x o.require_mldsa_only c (identified x c (initial x rfc3339 s))) in
          record {
            valid = ground (arith, step);
            certificate = c;
            carried = carried;
            profile = ground (arith, step);
            unlisted = ground (arith, step);
          }
    ]

    trusted-judge :
        (s : PdfSignature) → IsTrusted o at extra s → (judge x rfc3339 o at extra s).valid ≡ true
    unfolding judge
    trusted-judge s t = ground (
      arith,
      t.carried,
      check_crl-valid o.crl_pem extra at t.certificate (
          require_mldsa x o.require_mldsa_only t.certificate
            (identified x t.certificate (initial x rfc3339 s))),
    )

    judge_all-IsTrusted :
        (ss : List PdfSignature)
        → all_valid (judge_all x rfc3339 o at extra ss) ≡ true
        → All (IsTrusted o at extra) ss
    judge_all-IsTrusted [] e = tt
    judge_all-IsTrusted (s ∷ ss) e =
        (judge-IsTrusted s (ground arith), judge_all-IsTrusted ss (ground arith))

    trusted-judge_all :
        (ss : List PdfSignature)
        → All (IsTrusted o at extra) ss
        → all_valid (judge_all x rfc3339 o at extra ss) ≡ true
    trusted-judge_all [] t = refl
    trusted-judge_all (s ∷ ss) (t, ts) = ground (arith, trusted-judge s t, trusted-judge_all ss ts)

module _ (x : X509) (p : Pdfsign) (now : ℕ) (pdf : Bytes) (o : Options) where
  abbrev pub time_of : ℕ
  time_of = if eqb o.at 0 then now else o.at

  abbrev pub run_of : Parse
  run_of =
      p.run pdf (pool x (x.blocks o.root_pem)) o.require_mldsa_only o.allow_external_revocation
        time_of

  -- The document was read within its limit, the parser found at least one signature in it with the
  -- explicit roots, and each signature deserves trust.
  pub record IsVerified : Type 0 where
    pub given : pdf ≢ []
    pub root_given : o.root_pem ≢ []
    pub small : length pdf ≤ max_pdf_bytes
    pub rooted : pool x (x.blocks o.root_pem) ≢ []
    pub signatures : List PdfSignature
    pub found : run_of ≡ parsed signatures
    pub some_found : signatures ≢ []
    pub trusted :
        All (IsTrusted x o time_of (extra_certificates x p now o.intermediate_pem)) signatures

  report-verified :
      (at : ℕ) (run : Parse) (rep : Report)
      → report x p now pdf o at run ≡ ok rep
      → rep.valid ≡ true
      → (ss : List PdfSignature) × (run ≡ parsed ss)
        × (ss ≢ [])
        × All (IsTrusted x o at (extra_certificates x p now o.intermediate_pem)) ss
  unfolding report
  report-verified at (parsed (s ∷ ss)) rep e v = (
    s ∷ ss,
    refl,
    cc,
    judge_all-IsTrusted x p.rfc3339 o at (extra_certificates x p now o.intermediate_pem) (s ∷ ss)
        (ground arith),
  )
  report-verified at (parsed []) rep e v = absurd (ground arith)
  report-verified at (Parse.misbuilt _) rep e v = absurd (ground arith)
  report-verified at _ rep e v = absurd (ground arith)

  verify_pdf-unfolded :
      pdf ≢ []
      → o.root_pem ≢ []
      → length pdf ≤ max_pdf_bytes
      → pool x (x.blocks o.root_pem) ≢ []
      → verify_pdf x p now pdf o ≡ report x p now pdf o time_of run_of
  unfolding verify_pdf verify_inner
  verify_pdf-unfolded given root_given small rooted = ground arith

  verify_pdf-guards :
      (rep : Report)
      → verify_pdf x p now pdf o ≡ ok rep
      → (pdf ≢ [])
        × (o.root_pem ≢ [])
        × (length pdf ≤ max_pdf_bytes)
        × (pool x (x.blocks o.root_pem) ≢ [])
  unfolding verify_pdf verify_inner
  verify_pdf-guards rep e = ground arith

  verified_of : (rep : Report) → verify_pdf x p now pdf o ≡ ok rep → rep.valid ≡ true → IsVerified
  verified_of rep e v =
      let (given, root_given, small, rooted) = verify_pdf-guards rep e in
      let (ss, run, found, trusted) =
        report-verified time_of run_of rep
          (sym (verify_pdf-unfolded given root_given small rooted) ∙ e) v in
      record {
        given = given;
        root_given = root_given;
        small = small;
        rooted = rooted;
        signatures = ss;
        found = run;
        some_found = found;
        trusted = trusted;
      }

  report_of :
      (ss : List PdfSignature)
      → ss ≢ []
      → All (IsTrusted x o time_of (extra_certificates x p now o.intermediate_pem)) ss
      → (rep : Report) × (report x p now pdf o time_of (parsed ss) ≡ ok rep) × (rep.valid ≡ true)
  unfolding report
  report_of [] found trusted = absurd (found refl)
  report_of (s ∷ ss) found trusted = (
    _,
    refl,
    trusted-judge_all x p.rfc3339 o time_of (extra_certificates x p now o.intermediate_pem) (s ∷ ss)
        trusted,
  )

  -- The verifier gives a positive report exactly if the document is within its limit, the root given
  -- has a certificate, the parser finds at least one signature, and every signature deserves trust: it
  -- is valid, has a certificate that is ML-DSA where this is required, and is not on a list that the
  -- check accepts.
  pub verify_pdf-valid_iff :
      ((rep : Report) × (verify_pdf x p now pdf o ≡ ok rep) × (rep.valid ≡ true)) ↔ IsVerified
  verify_pdf-valid_iff = (
    λ (rep, e, v). verified_of rep e v,
    λ v.
        let (rep, e, positive) = report_of v.signatures v.some_found v.trusted in
        (
          rep,
          verify_pdf-unfolded v.given v.root_given v.small v.rooted
              ∙ ap (report x p now pdf o time_of) v.found
              ∙ e,
          positive,
        ),
  )
