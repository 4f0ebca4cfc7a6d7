-- ===== src/Core/Enrollment/Created.antt =====
-- csr.go: `CreateDeviceCSR`, which the client runs. What `x509.CreateCertificateRequest` does is the
-- parameter `Requester`.
use ttd_elektronik.Prelude.{
  String, true, not, Option, none, some, List, [], ◌∷◌, Result, ok, err, if◌then◌else◌, ◌==◌, ◌≡◌,
  ap, sym, ◌∙◌, arith, Option-cases, Bool-cases, inl, inr,
}
use ttd_elektronik.Store.Types.{Bytes}
use ttd_elektronik.Core.Certutil.{X509, Block}
use ttd_elektronik.Core.Keys
use ttd_elektronik.Core.Keys.{Keyring, parse_pkcs8}
use ttd_elektronik.Core.Labpki.{Name}
use ttd_elektronik.Core.Enrollment.{Request, Requests, CsrInfo, der_of, parse_and_validate_csr}

-- The fields of the request that reach the subject.
pub record Subject : Type 0 where
  pub common_name : String
  pub organization : String
  pub organizational_unit : String

pub record Requester : Type 0 where
  pub create : Name → Bytes → Option Bytes

pub data Failure : Type 0 where
  key_refused : Keys.Error → Failure
  no_common_name uncreated : Failure

abbrev given : String → List String
given s = if not (s == "") then s ∷ [] else []

abbrev pub subject_name : Subject → Name
subject_name r = record {
  common_name = r.common_name;
  organization = given r.organization;
  organizational_unit = given r.organizational_unit;
}

module _ (x : X509) (k : Keyring) (c : Requester) where
  unfoldable pub create_device_csr : Bytes → Subject → Result Failure Bytes
  create_device_csr pkcs8 r = elim (parse_pkcs8 x k pkcs8) [
    | err e ↦ err (key_refused e)
    | ok sk ↦
        if r.common_name == "" then err no_common_name else elim (c.create (subject_name r) sk) [
          | none ↦ err uncreated
          | some der ↦ ok (k.encode_pem (record { type = "CERTIFICATE REQUEST"; bytes = der }))
        ]
  ]

-- What crypto/x509 and encoding/pem document: a request that is created parses, is signed by its own
-- ML-DSA-65 key, and has its public half; that key has a fingerprint.
pub record IsFaithful (x : X509) (k : Keyring) (q : Requests) (c : Requester) : Type 0 where
  pub parses :
      (n : Name) (sk der : Bytes)
      → c.create n sk ≡ some der
      → (r : Request) × (q.parse_request der ≡ some r)
        × (r.self_signed ≡ true)
        × (r.is_mldsa ≡ true)
        × (r.is_mldsa65 ≡ true)
        × (r.public_key ≡ (k.public sk).bytes)
        × ((fp : String) × (r.fingerprint ≡ some fp))
  pub pem : (b : Block) → x.blocks (k.encode_pem b) ≡ b ∷ []

-- A request that a client creates with its key is accepted by the server's check, as one of that key.
pub parse_and_validate_csr-create_device_csr :
    (x : X509) (k : Keyring) (q : Requests) (c : Requester)
    → IsFaithful x k q c
    → (pkcs8 sk pem : Bytes) (subject : Subject) → parse_pkcs8 x k pkcs8 ≡ ok sk
    → create_device_csr x k c pkcs8 subject ≡ ok pem
    → (r : Request) × (info : CsrInfo) × (parse_and_validate_csr x q pem ≡ ok (r, info))
      × (r.public_key ≡ (k.public sk).bytes)
unfolding create_device_csr parse_and_validate_csr
parse_and_validate_csr-create_device_csr x k q c faithful pkcs8 sk pem subject key e =
    elim (Option-cases (c.create (subject_name subject) sk)) [
      | inl failed ↦ absurd (ground (arith, Bool-cases (subject.common_name == "")))
      | inr (der, made) ↦
          let (r, parsed, signed, mldsa, mldsa65, keyed, (fp, printed)) =
            faithful.parses (subject_name subject) sk der made in
          let block : Block = record { type = "CERTIFICATE REQUEST"; bytes = der } in
          let written : k.encode_pem block ≡ pem =
            ground (arith, key, made, Bool-cases (subject.common_name == "")) in
          let info : CsrInfo = record {
            subject = r.subject;
            public_key_algorithm = "ML-DSA-65";
            public_key_fp = fp;
            proof_of_possession = true;
          } in
          let accepted : parse_and_validate_csr x q (k.encode_pem block) ≡ ok (r, info) =
            rw (parse_and_validate_csr, der_of, faithful.pem block)
              (ground (arith, parsed, signed, mldsa, mldsa65, printed)) in
          (r, info, ap (parse_and_validate_csr x q) (sym written) ∙ accepted, keyed)
    ]
