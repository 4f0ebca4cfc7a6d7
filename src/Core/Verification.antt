-- ===== src/Core/Verification.antt =====
-- core/verification/verify.go: the verification of a signed PDF against an explicit root. The
-- third-party parser is the parameter `Pdfsign`; texts of errors and warnings that the code builds
-- from other errors keep their fixed part.
pub mod Light
pub mod Verdict
use ttd_elektronik.Prelude.{
  ℕ, ◌*◌, String, Bool, true, false, not, ◌&&◌, ◌||◌, Option, none, some, List, [], ◌∷◌, ◌++◌,
  Result, ok, err, ltb, leb, eqb, ◌==◌, ◌&◌, if◌then◌else◌, length, strip_prefix,
}
use ttd_elektronik.Store.Types.{Bytes}
use ttd_elektronik.Core.Certutil.{
  Certificate, X509, pool, parse_chain_pem, fingerprint_sha256, validate_crl,
}

pub record Options : Type 0 where
  pub root_pem : Bytes
  pub intermediate_pem : Bytes
  pub crl_pem : Bytes
  pub require_mldsa_only : Bool
  pub allow_external_revocation : Bool
  pub at : ℕ
  pub timeout : ℕ

abbrev pub max_pdf_bytes : ℕ
max_pdf_bytes = 64 * 1048576

pub record SignatureResult : Type 0 where
  pub valid : Bool
  pub algorithm : String
  pub certificate_serial : String
  pub certificate_fingerprint : String
  pub subject : String
  pub trusted_chain : Bool
  pub revoked : Bool
  pub client_claimed_signing_time : String
  pub timestamp_valid : Bool
  pub warnings : List String
  pub errors : List String
  pub reason : String
  pub contact : String

abbrev pub public_id_prefix : String
public_id_prefix = "pqc-public-id:"

-- `PublicID`: what follows the prefix, "" where there is no prefix or nothing follows.
unfoldable pub public_id : SignatureResult → String
public_id s = elim (strip_prefix public_id_prefix s.contact) [ none ↦ "" | some id ↦ id ]

pub record Report : Type 0 where
  pub valid : Bool
  pub document_sha512 : String
  pub signatures : List SignatureResult
  pub errors : List String

-- One signature as the third-party verifier reports it.
pub record PdfSignature : Type 0 where
  pub valid : Bool
  pub trusted_chain : Bool
  pub revoked : Bool
  pub timestamp_valid : Bool
  pub reason : String
  pub contact : String
  pub warnings : List String
  pub errors : List String
  pub signing_time : ℕ
  pub certificate : Option Certificate

-- How a run of the third-party parser and verifier ends.
pub data Parse : Type 0 where
  unopened : String → Parse
  misbuilt : String → Parse
  parsed : List PdfSignature → Parse
  panics hangs : Parse

pub record Pdfsign : Type 0 where
  pub run : Bytes → List Certificate → Bool → Bool → ℕ → Parse
  pub sha512_hex : Bytes → String
  pub rfc3339 : ℕ → String

pub data Failure : Type 0 where
  panicked too_large timed_out empty_input no_root_pem bad_root_pem : Failure
  cannot_open : String → Failure

-- The fixed parts of the messages.
abbrev pub failure_text : Failure → String
failure_text panicked = "verification: recovered from panic parsing PDF: "
failure_text too_large = "verification: PDF is "
failure_text timed_out = "verification: gave up after "
failure_text empty_input = "verification: empty PDF input"
failure_text no_root_pem = "verification: RootPEM (explicit trust anchor) is required"
failure_text bad_root_pem = "verification: no valid certificates in RootPEM"
failure_text (cannot_open e) = "verification: open PDF: " & e

module _ (x : X509) where
  unfoldable pub crl_issuer_for : Certificate → List Certificate → Option Certificate
  crl_issuer_for signer [] = none
  crl_issuer_for signer (c ∷ cs) =
      if c.subject == signer.issuer then some c else crl_issuer_for signer cs

  abbrev pub algorithm_name : Certificate → String
  algorithm_name c = if c.is_mldsa then "ML-DSA-65" else c.key_algorithm

  -- The profile check: `sr` with its flag and its error.
  abbrev pub require_mldsa : Bool → Certificate → SignatureResult → SignatureResult
  require_mldsa only c sr =
      if only && not c.is_mldsa
      then record sr {
        valid = false;
        errors = sr.errors ++ "signer certificate is not ML-DSA (PQC-only profile)" ∷ [];
      }
      else sr

  -- The offline revocation check, where a list was supplied.
  unfoldable pub check_crl :
      Bytes → List Certificate → ℕ → Certificate → SignatureResult → SignatureResult
  check_crl [] extra at c sr = sr
  check_crl (b ∷ bs) extra at c sr = elim (validate_crl x (b ∷ bs) (crl_issuer_for c extra) c at) [
    | err e ↦ record sr { warnings = sr.warnings ++ "CRL check failed: " ∷ [] }
    | ok st ↦
        if st.revoked
        then record sr {
          revoked = true;
          valid = false;
          errors = sr.errors ++ "signer certificate is revoked (CRL)" ∷ [];
        }
        else if st.stale
        then record sr { warnings = sr.warnings ++ "CRL is stale (past nextUpdate)" ∷ [] }
        else sr
  ]

  abbrev pub initial : (ℕ → String) → PdfSignature → SignatureResult
  initial rfc3339 s = record {
    valid = s.valid;
    algorithm = "";
    certificate_serial = "";
    certificate_fingerprint = "";
    subject = "";
    trusted_chain = s.trusted_chain;
    revoked = s.revoked;
    client_claimed_signing_time = if eqb s.signing_time 0 then "" else rfc3339 s.signing_time;
    timestamp_valid = s.timestamp_valid;
    warnings = s.warnings;
    errors = s.errors;
    reason = s.reason;
    contact = s.contact;
  }

  abbrev pub identified : Certificate → SignatureResult → SignatureResult
  identified c sr = record sr {
    subject = c.subject;
    certificate_serial = x.hex c.serial;
    certificate_fingerprint = fingerprint_sha256 x c;
    algorithm = algorithm_name c;
  }

  -- One round of the loop over the signatures.
  unfoldable pub judge :
      (ℕ → String) → Options → ℕ → List Certificate → PdfSignature → SignatureResult
  judge rfc3339 o at extra s = elim s.certificate [
    | none ↦
        let sr = initial rfc3339 s in
        record sr { valid = false; errors = sr.errors ++ "no signer certificate in signature" ∷ [] }
    | some c ↦
        check_crl o.crl_pem extra at c
          (require_mldsa o.require_mldsa_only c (identified c (initial rfc3339 s)))
  ]

  abbrev pub judge_all :
      (ℕ → String) → Options → ℕ → List Certificate → List PdfSignature → List SignatureResult
  judge_all rfc3339 o at extra [] = []
  judge_all rfc3339 o at extra (s ∷ ss) =
      judge rfc3339 o at extra s ∷ judge_all rfc3339 o at extra ss

abbrev pub all_valid : List SignatureResult → Bool
all_valid [] = true
all_valid (s ∷ ss) = s.valid && all_valid ss

module _ (x : X509) (p : Pdfsign) (now : ℕ) where
  abbrev pub extra_certificates : Bytes → List Certificate
  extra_certificates [] = []
  extra_certificates (b ∷ bs) = elim (parse_chain_pem x (b ∷ bs)) [ err e ↦ [] | ok cs ↦ cs ]

  -- `verifyPDF` behind its guards: what becomes of the parser's outcome. A panic is caught by the
  -- caller, and a hang is seen by the watchdog if there is one.
  unfoldable pub report : Bytes → Options → ℕ → Parse → Result Failure Report
  report pdf o at (unopened e) = err (cannot_open e)
  report pdf o at (misbuilt e) = ok (record {
    valid = false;
    document_sha512 = p.sha512_hex pdf;
    signatures = [];
    errors = e ∷ [];
  })
  report pdf o at (parsed []) = ok (record {
    valid = false;
    document_sha512 = p.sha512_hex pdf;
    signatures = [];
    errors = "no processable signatures found" ∷ [];
  })
  report pdf o at (parsed (s ∷ ss)) =
      let judged = judge_all x p.rfc3339 o at (extra_certificates o.intermediate_pem) (s ∷ ss) in
      ok (record {
        valid = all_valid judged;
        document_sha512 = p.sha512_hex pdf;
        signatures = judged;
        errors = [];
      })
  report pdf o at panics = err panicked
  report pdf o at hangs = err timed_out

  unfoldable pub verify_inner : Bytes → Options → Result Failure Report
  verify_inner [] o = err empty_input
  verify_inner (b ∷ bs) o =
      let at = if eqb o.at 0 then now else o.at in
      elim o.root_pem [
        | [] ↦ err no_root_pem
        | r ∷ rs ↦ elim (pool x (x.blocks o.root_pem)) [
          | [] ↦ err bad_root_pem
          | c ∷ cs ↦
              report (b ∷ bs) o at
                (p.run (b ∷ bs) (c ∷ cs) o.require_mldsa_only o.allow_external_revocation at)
        ]
      ]

  -- `VerifyPDF`. With a timeout of 0 there is no watchdog, and a parser that hangs keeps the
  -- caller for ever: `timed_out` then stands for no answer.
  unfoldable pub verify_pdf : Bytes → Options → Result Failure Report
  verify_pdf pdf o = if ltb max_pdf_bytes (length pdf) then err too_large else verify_inner pdf o
