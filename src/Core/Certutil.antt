-- ===== src/Core/Certutil.antt =====
-- core/certutil/certutil.go: checks of certificates, chains and revocation lists. What crypto/x509,
-- encoding/pem and SHA-256 do is the parameter `X509`; `Certificate` and `Crl` are what the code
-- reads of a parsed certificate and a parsed list. The texts of the errors are constructors.
pub mod Revocation
pub mod Profile
use ttd_elektronik.Prelude.{
  ℕ, zero, String, Bool, true, false, not, ◌&&◌, ◌||◌, Option, none, some, List, [], ◌∷◌, Result,
  ok, err, ltb, eqb, ◌==◌, if◌then◌else◌, same_bytes,
}
use ttd_elektronik.Store.Types.{Bytes}

pub record Certificate : Type 0 where
  pub raw : Bytes
  pub subject : String
  pub issuer : String
  pub serial : ℕ
  pub key_algorithm : String
  pub signature_algorithm : String
  pub is_mldsa : Bool
  pub public_key : Bytes
  pub not_before : ℕ
  pub not_after : ℕ
  pub is_ca : Bool
  pub unknown_ekus : List String

pub record Crl : Type 0 where
  pub raw : Bytes
  pub this_update : ℕ
  pub next_update : ℕ
  pub entries : List (ℕ × ℕ)

pub record Block : Type 0 where
  pub type : String
  pub bytes : Bytes

-- `blocks` is what repeated calls of `pem.Decode` yield; `chains` is how many chains `Verify`
-- builds, `none` where it fails.
pub record X509 : Type 0 where
  pub blocks : Bytes → List Block
  pub parse_certificate : Bytes → Option Certificate
  pub parse_crl : Bytes → Option Crl
  pub signed_by : Crl → Certificate → Bool
  pub chains : Certificate → List Certificate → List Certificate → ℕ → Option ℕ
  pub sha256_hex : Bytes → String
  pub hex : ℕ → String

pub data Error : Type 0 where
  no_certificate_block unparsable not_mldsa not_valid_now is_a_ca missing_eku : Error
  empty_chain no_root unverified : Error
  crl_unparsable wrong_issuer : Error

-- The fixed parts of the messages; empty where the error of crypto/x509 is passed on.
abbrev pub error_text : Error → String
error_text no_certificate_block = "certutil: no CERTIFICATE block found"
error_text unparsable = ""
error_text not_mldsa = "certutil: device certificate must be ML-DSA, got "
error_text not_valid_now = "certutil: certificate not valid at "
error_text is_a_ca = "certutil: device certificate must not be a CA"
error_text missing_eku =
    "certutil: device certificate is missing id-kp-documentSigning EKU (1.3.6.1.5.5.7.3.36)"
error_text empty_chain = "certutil: chain contains no certificates"
error_text no_root = "certutil: no valid certificates in root PEM"
error_text unverified = ""
error_text crl_unparsable = "certutil: parse CRL: "
error_text wrong_issuer = "certutil: CRL not signed by expected issuer: "

abbrev pub oid_document_signing : String
oid_document_signing = "1.3.6.1.5.5.7.3.36"

abbrev pub carries_eku : List String → Bool
carries_eku [] = false
carries_eku (oid ∷ oids) = oid == oid_document_signing || carries_eku oids

abbrev pub has_document_signing_eku : Certificate → Bool
has_document_signing_eku c = carries_eku c.unknown_ekus

pub record CertInfo : Type 0 where
  pub subject : String
  pub issuer : String
  pub serial_number : String
  pub fingerprint_sha256 : String
  pub public_key_algorithm : String
  pub signature_algorithm : String
  pub not_before : ℕ
  pub not_after : ℕ
  pub is_ca : Bool
  pub has_document_signing : Bool

module _ (x : X509) where
  unfoldable pub fingerprint_sha256 : Certificate → String
  fingerprint_sha256 c = x.sha256_hex c.raw

  abbrev first_certificate : List Block → Result Error Certificate
  first_certificate [] = err no_certificate_block
  first_certificate (b ∷ bs) =
      if b.type == "CERTIFICATE"
      then elim (x.parse_certificate b.bytes) [ none ↦ err unparsable | some c ↦ ok c ]
      else first_certificate bs

  unfoldable pub parse_certificate_pem : Bytes → Result Error Certificate
  parse_certificate_pem pem = first_certificate (x.blocks pem)

  -- The loop of `ParseChainPEM`; `none` is a certificate that does not parse.
  abbrev pub all_certificates : List Block → Option (List Certificate)
  all_certificates [] = some []
  all_certificates (b ∷ bs) =
      let rest = all_certificates bs in
      if b.type == "CERTIFICATE"
      then elim (x.parse_certificate b.bytes) [
        | none ↦ none
        | some c ↦ elim rest [ none ↦ none | some cs ↦ some (c ∷ cs) ]
      ]
      else rest

  unfoldable pub parse_chain_pem : Bytes → Result Error (List Certificate)
  parse_chain_pem pem = elim (all_certificates (x.blocks pem)) [
    | none ↦ err unparsable
    | some [] ↦ err empty_chain
    | some (c ∷ cs) ↦ ok (c ∷ cs)
  ]

  -- `AppendCertsFromPEM`: what does not parse is passed over.
  abbrev pub pool : List Block → List Certificate
  pool [] = []
  pool (b ∷ bs) =
      let rest = pool bs in
      if b.type == "CERTIFICATE"
      then elim (x.parse_certificate b.bytes) [ none ↦ rest | some c ↦ c ∷ rest ]
      else rest

  unfoldable pub describe : Certificate → CertInfo
  unfolding fingerprint_sha256
  describe c = record {
    subject = c.subject;
    issuer = c.issuer;
    serial_number = x.hex c.serial;
    fingerprint_sha256 = fingerprint_sha256 c;
    public_key_algorithm = c.key_algorithm;
    signature_algorithm = c.signature_algorithm;
    not_before = c.not_before;
    not_after = c.not_after;
    is_ca = c.is_ca;
    has_document_signing = has_document_signing_eku c;
  }

  -- The checks of `ParseAndValidateCertificate` on a parsed certificate, in the code's order.
  unfoldable pub check_profile : ℕ → Certificate → Result Error (Certificate × CertInfo)
  check_profile at c =
      if not c.is_mldsa
      then err not_mldsa
      else if ltb at c.not_before || ltb c.not_after at
      then err not_valid_now
      else if c.is_ca
      then err is_a_ca
      else if not (has_document_signing_eku c)
      then err missing_eku
      else ok (c, describe c)

  unfoldable pub parse_and_validate_certificate : Bytes → ℕ → Result Error (Certificate × CertInfo)
  unfolding parse_certificate_pem check_profile
  parse_and_validate_certificate pem at = elim (parse_certificate_pem pem) [
    | err e ↦ err e
    | ok c ↦ check_profile at c
  ]

  -- The intermediates that are not the leaf itself.
  abbrev pub others : Certificate → List Certificate → List Certificate
  others leaf [] = []
  others leaf (c ∷ cs) =
      let rest = others leaf cs in if same_bytes c.raw leaf.raw then rest else c ∷ rest

  -- `ValidateCertificateChain`: `ok` holds `TrustedChain`.
  unfoldable pub validate_certificate_chain :
      Certificate → List Certificate → Bytes → ℕ → Result Error Bool
  validate_certificate_chain leaf intermediates root_pem at = elim (pool (x.blocks root_pem)) [
    | [] ↦ err no_root
    | r ∷ rs ↦ elim (x.chains leaf (others leaf intermediates) (r ∷ rs) at) [
      | none ↦ err unverified
      | some n ↦ ok (ltb 0 n)
    ]
  ]

pub record CrlStatus : Type 0 where
  pub checked : Bool
  pub revoked : Bool
  pub revoked_at : ℕ
  pub this_update : ℕ
  pub next_update : ℕ
  pub stale : Bool
  pub signature_ok : Bool

-- The loop over the entries: the time of the first entry with the serial.
abbrev pub revocation_of : ℕ → List (ℕ × ℕ) → Option ℕ
revocation_of serial [] = none
revocation_of serial ((n, at) ∷ es) = if eqb n serial then some at else revocation_of serial es

abbrev pub with_entry : CrlStatus → Option ℕ → CrlStatus
with_entry st none = st
with_entry st (some at) = record st { revoked = true; revoked_at = at }

module _ (x : X509) where
  abbrev pub der_of : Bytes → Bytes
  der_of crl = elim (x.blocks crl) [ [] ↦ crl | b ∷ bs ↦ b.bytes ]

  unfoldable pub validate_crl :
      Bytes → Option Certificate → Certificate → ℕ → Result Error CrlStatus
  validate_crl bytes issuer target now = elim (x.parse_crl (der_of bytes)) [
    | none ↦ err crl_unparsable
    | some crl ↦
        let st : CrlStatus = record {
          checked = true;
          revoked = false;
          revoked_at = 0;
          this_update = crl.this_update;
          next_update = crl.next_update;
          stale = not (eqb crl.next_update 0) && ltb crl.next_update now;
          signature_ok = false;
        } in
        let found = revocation_of target.serial crl.entries in
        elim issuer [
          | none ↦ ok (with_entry st found)
          | some i ↦
              if x.signed_by crl i
              then ok (with_entry (record st { signature_ok = true }) found)
              else err wrong_issuer
        ]
  ]
