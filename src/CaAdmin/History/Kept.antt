-- ===== src/CaAdmin/History/Kept.antt =====
-- The commands that issue certificates leave the ledger alone.
use ttd_elektronik.Prelude.{
  ℕ, ◌+◌, String, Option, List, [], ◌∷◌, Result, ok, err, refl, arith, Option-cases, Result-cases,
  inl, inr, ◌&◌,
}
use ttd_elektronik.Store.Types.{Bytes}
use ttd_elektronik.Core.Certutil.{X509, Certificate}
use ttd_elektronik.Core.Enrollment.{CsrInfo, Request, Requests, parse_and_validate_csr}
use ttd_elektronik.Core.Keys.{Keyring}
use ttd_elektronik.Core.Labpki.{Ca, Draw, Pki, issue_device_cert, cert_pem, chain_pem}
use ttd_elektronik.CaAdmin.Files.{
  Failure, pure, ca_failed, csr_rejected, Json, ReadsBack, Env, ◌>>=◌, ◌>>◌, append_line,
  write_output, Spares,
}
use ttd_elektronik.CaAdmin.Files.Keeps.{
  Keeps, Keeps->>=, Keeps->>, append_line-Keeps, write_output-Keeps,
}
use ttd_elektronik.CaAdmin.Keyfile.{Sealing}
use ttd_elektronik.CaAdmin.Castore.{loaded, lift, draw, open_store, append_issued, load_ca}
use ttd_elektronik.CaAdmin.Commands.{
  IssueFlags, cmd_issue, issue_one, record_issued, issued_record, cert_options,
}
use ttd_elektronik.CaAdmin.Commands.Revoked.{log_ceremony-keeps}
use ttd_elektronik.CaAdmin.Batch.{
  Entry, BatchFlags, cmd_batch_issue, issue_each, stem_of, flags_for, meta_of,
}

module _ (x : X509) (q : Requests) (k : Keyring) (p : Pki) (j : Json) (z : Sealing) (env : Env)
    (reads : ReadsBack j) (apart : (p : String) → Spares env p "ledger.json") where
  abbrev L : String
  L = "ledger.json"

  lift-Keeps : {E A : Type 0} (why : E → Failure) (o : Result E A) → Keeps L (lift why o)
  lift-Keeps why (ok a) f = refl
  lift-Keeps why (err e) f = refl

  draw-Keeps : (n : ℕ) → Keeps L (draw env n)
  draw-Keeps n f = ground (arith, Option-cases (env.random n))

  record_issued-Keeps :
      (inter : Ca) (info : CsrInfo) (fl : IssueFlags) (cert : Certificate)
      → Keeps L (record_issued x q k p j z env inter info fl cert)
  unfolding record_issued append_issued
  record_issued-Keeps inter info fl cert =
      let rec = issued_record x q k p j z env info fl cert in
      let whole = write_output env fl.out (cert_pem x k p cert) in
      let chain =
        write_output env (fl.out & ".fullchain.pem") (chain_pem x k p (cert ∷ inter.cert ∷ [])) in
      let line = append_line env "issued.jsonl" (j.issued rec) in
      Keeps->> L whole (chain >> (line >> pure rec)) (write_output-Keeps L env _ _ (apart _)) (
        Keeps->> L chain (line >> pure rec) (write_output-Keeps L env _ _ (apart _))
          (Keeps->> L line (pure rec) (append_line-Keeps L env "issued.jsonl" _ refl) (λ f. refl)))

  issue_one-Keeps :
      (n : ℕ) (inter : Ca) (pem : Bytes) (fl : IssueFlags)
      → Keeps L (issue_one x q k p j z env n inter pem fl)
  unfolding issue_one
  issue_one-Keeps n inter pem fl =
      let signed = λ (csr : Request) (d : Draw).
        lift ca_failed (issue_device_cert x k p d inter csr (cert_options x q k p j z env fl)) in
      let then_record =
        λ (info : CsrInfo) (cert : Certificate). record_issued x q k p j z env inter info fl cert in
      Keeps->>= L (lift csr_rejected (parse_and_validate_csr x q pem))
        (λ (csr, info). draw env n >>= λ d. signed csr d >>= then_record info) (lift-Keeps _ _)
        λ (csr, info).
          Keeps->>= L (draw env n) (λ d. signed csr d >>= then_record info) (draw-Keeps n)
            λ d.
              Keeps->>= L (signed csr d) (then_record info) (lift-Keeps _ _)
                λ cert. record_issued-Keeps inter info fl cert

  pub cmd_issue-Keeps :
      (fl : IssueFlags) (content : Option Bytes) → Keeps L (cmd_issue x q k p j z env fl content)
  unfolding cmd_issue open_store load_ca
  cmd_issue-Keeps fl content f = elim (Result-cases (loaded x k p j z env "intermediate" f)) [
    | inr (why, failed) ↦ ground arith
    | inl (inter, found) ↦ elim (Option-cases content) [
      | inl missing ↦ ground arith
      | inr (raw, given) ↦ ground (
        arith,
        issue_one-Keeps 0 inter raw fl f,
        log_ceremony-keeps x q k p j z env reads "cert.issue" "1 certificate" ("issued.jsonl" ∷ [])
            L (issue_one x q k p j z env 0 inter raw fl f).0 refl,
      )
    ]
  ]

  issue_each-Keeps :
      (inter : Ca) (fl : BatchFlags) (es : List Entry) (n : ℕ)
      → Keeps L (issue_each x q k p j z env inter fl es n)
  unfolding issue_each
  issue_each-Keeps inter fl [] n f = refl
  issue_each-Keeps inter fl (e ∷ es) n f = elim (Option-cases (stem_of e)) [
    | inl other ↦ rw (issue_each, other) (issue_each-Keeps inter fl es n f)
    | inr (stem, named) ↦ elim (Option-cases e.raw) [
      | inl missing ↦ ground arith
      | inr (raw, given) ↦
          let one = issue_one x q k p j z env n inter raw (flags_for fl stem (meta_of e)) in
          let kept =
            Keeps->> L one (issue_each x q k p j z env inter fl es (n + 1))
              (issue_one-Keeps n inter raw (flags_for fl stem (meta_of e)))
              (issue_each-Keeps inter fl es (n + 1)) f in
          rw (issue_each, named, given) kept
    ]
  ]

  pub cmd_batch_issue-Keeps :
      (note : ℕ → String) (fl : BatchFlags) (entries : Option (List Entry))
      → Keeps L (cmd_batch_issue x q k p j z env note fl entries)
  unfolding cmd_batch_issue open_store load_ca
  cmd_batch_issue-Keeps note fl entries f =
      elim (Result-cases (loaded x k p j z env "intermediate" f)) [
        | inr (why, failed) ↦ ground arith
        | inl (inter, found) ↦ elim (Option-cases entries) [
          | inl missing ↦ ground arith
          | inr (es, given) ↦ elim (Result-cases (issue_each x q k p j z env inter fl es 0 f).1) [
            | inr (why, failed) ↦ ground (arith, issue_each-Keeps inter fl es 0 f)
            | inl (count, went) ↦ ground (
              arith,
              issue_each-Keeps inter fl es 0 f,
              log_ceremony-keeps x q k p j z env reads "cert.batch-issue" (note count)
                  ("issued.jsonl" ∷ []) L (issue_each x q k p j z env inter fl es 0 f).0 refl,
            )
          ]
        ]
      ]
