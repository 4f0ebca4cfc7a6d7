-- ===== src/Core/Enrollment.antt =====
-- core/enrollment/csr.go: the server's checks of a device's certificate request. What crypto/x509 and
-- crypto/mldsa do is the parameter `Requests`.
pub mod Created
use ttd_elektronik.Prelude.{
  String, Bool, true, not, Option, none, some, [], ◌∷◌, Result, ok, err, if◌then◌else◌, ◌≡◌, arith,
  Option-cases, inl, inr,
}
use ttd_elektronik.Store.Types.{Bytes}
use ttd_elektronik.Core.Certutil.{X509}

-- What the code reads of a parsed request: whether its own signature verifies, and its key.
-- `fingerprint` is that of `keys.PublicKeyFingerprint`, `none` where it fails.
pub record Request : Type 0 where
  pub subject : String
  pub self_signed : Bool
  pub is_mldsa : Bool
  pub is_mldsa65 : Bool
  pub public_key : Bytes
  pub fingerprint : Option String

pub record Requests : Type 0 where
  pub parse_request : Bytes → Option Request

pub data Error : Type 0 where
  unparsable no_possession not_mldsa not_mldsa65 no_fingerprint : Error

-- The fixed parts of the messages; empty where another error is passed on.
abbrev pub error_text : Error → String
error_text unparsable = "enrollment: parse CSR: "
error_text no_possession = "enrollment: CSR proof-of-possession failed: "
error_text not_mldsa = "enrollment: CSR public key must be ML-DSA, got "
error_text not_mldsa65 = "enrollment: CSR public key must be ML-DSA-65, got "
error_text no_fingerprint = ""

pub record CsrInfo : Type 0 where
  pub subject : String
  pub public_key_algorithm : String
  pub public_key_fp : String
  pub proof_of_possession : Bool

module _ (x : X509) (q : Requests) where
  abbrev pub der_of : Bytes → Bytes
  der_of pem = elim (x.blocks pem) [ [] ↦ pem | b ∷ bs ↦ b.bytes ]

  -- `ParseAndValidateCSR`
  unfoldable pub parse_and_validate_csr : Bytes → Result Error (Request × CsrInfo)
  parse_and_validate_csr pem = elim (q.parse_request (der_of pem)) [
    | none ↦ err unparsable
    | some csr ↦
        if not csr.self_signed
        then err no_possession
        else if not csr.is_mldsa
        then err not_mldsa
        else if not csr.is_mldsa65
        then err not_mldsa65
        else elim csr.fingerprint [
          | none ↦ err no_fingerprint
          | some fp ↦ ok (
            csr,
            record {
              subject = csr.subject;
              public_key_algorithm = "ML-DSA-65";
              public_key_fp = fp;
              proof_of_possession = true;
            },
          )
        ]
  ]

  -- A request is accepted only with a proof of possession by an ML-DSA-65 key, and what is recorded is
  -- the fingerprint of that key.
  pub parse_and_validate_csr_sound :
      (pem : Bytes) (csr : Request) (info : CsrInfo)
      → parse_and_validate_csr pem ≡ ok (csr, info)
      → (q.parse_request (der_of pem) ≡ some csr)
        × (csr.self_signed ≡ true)
        × (csr.is_mldsa ≡ true)
        × (csr.is_mldsa65 ≡ true)
        × (csr.fingerprint ≡ some info.public_key_fp)
  unfolding parse_and_validate_csr
  parse_and_validate_csr_sound pem csr info e = elim (Option-cases (q.parse_request (der_of pem))) [
    | inl missing ↦ ground arith
    | inr (c, found) ↦ ground arith
  ]
