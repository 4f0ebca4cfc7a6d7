-- ===== src/Core/Labpki.antt =====
-- core/labpki/labpki.go: the certificate authority that signs device certificates and revocation lists.
-- What `x509.CreateCertificate` and `x509.CreateRevocationList` do is the parameter `Pki`; the
-- templates that the code hands to them are written out.
pub mod Issued
pub mod Listed
use ttd_elektronik.Prelude.{
  ℕ, ◌+◌, ◌-◌, ◌*◌, String, Bool, true, false, not, Option, none, some, List, [], ◌∷◌, ◌++◌, map,
  Result, ok, err, ◌==◌, eqb, if◌then◌else◌,
}
use ttd_elektronik.Store.Types.{Bytes}
use ttd_elektronik.Core.Certutil.{X509, Certificate, Block, oid_document_signing}
use ttd_elektronik.Core.Enrollment.{Request}
use ttd_elektronik.Core.Keys
use ttd_elektronik.Core.Keys.{Keyring, PublicKey, generate_mldsa65_key}

pub record Ca : Type 0 where
  pub key : Bytes
  pub cert : Certificate

pub data KeyUsage : Type 0 where
  digital_signature cert_sign crl_sign : KeyUsage

pub record Name : Type 0 where
  pub common_name : String
  pub organization : List String
  pub organizational_unit : List String

-- `pathlen` is `none` where a template sets no MaxPathLen.
pub record Template : Type 0 where
  pub serial : ℕ
  pub subject : Name
  pub not_before : ℕ
  pub not_after : ℕ
  pub key_usage : List KeyUsage
  pub unknown_ekus : List String
  pub is_ca : Bool
  pub pathlen : Option ℕ
  pub crl_points : List String

-- A serial of a revocation list: `big.Int`, which may be negative.
pub record Serial : Type 0 where
  pub negative : Bool
  pub magnitude : ℕ

abbrev pub plain : ℕ → Serial
plain n = record { negative = false; magnitude = n }

pub record RevokedEntry : Type 0 where
  pub serial : Serial
  pub reason : ℕ
  pub at : ℕ

pub record ListTemplate : Type 0 where
  pub number : ℕ
  pub this_update : ℕ
  pub next_update : ℕ
  pub entries : List RevokedEntry

-- `create_certificate` is given the parent, `none` where the certificate signs itself, the key that is
-- certified and the private key that signs; both give DER.
pub record Pki : Type 0 where
  pub create_certificate : Template → Option Certificate → PublicKey → Bytes → Option Bytes
  pub create_list : ListTemplate → Certificate → Bytes → Option Bytes

-- What one operation draws: the time, the random serial, `none` where it cannot be read, the random
-- bytes of a new key.
pub record Draw : Type 0 where
  pub now : ℕ
  pub serial : Option ℕ
  pub random : Bytes

pub data Error : Type 0 where
  key_failed : Keys.Error → Error
  no_serial not_mldsa uncreated unparsable : Error

abbrev pub hour : ℕ
hour = 60 * 60 * 1000000000

abbrev pub day : ℕ
day = 24 * hour

abbrev pub year : ℕ
year = 365 * day

pub record DeviceCertOptions : Type 0 where
  pub subject : Name
  pub validity : ℕ
  pub crl_url : String
  pub not_before : ℕ

module _ (x : X509) (k : Keyring) (p : Pki) where
  abbrev parsed : Option Bytes → Result Error Certificate
  parsed none = err uncreated
  parsed (some der) = elim (x.parse_certificate der) [ none ↦ err unparsable | some c ↦ ok c ]

  -- A certificate of a template, as an authority with its key.
  abbrev with_key : Bytes → Result Error Certificate → Result Error Ca
  with_key sk (err e) = err e
  with_key sk (ok c) = ok (record { key = sk; cert = c })

  -- `selfSign`
  unfoldable pub self_sign : Template → Bytes → Result Error Certificate
  self_sign t sk = parsed (p.create_certificate t none (k.public sk) sk)

  abbrev root_template : String → ℕ → ℕ → ℕ → Template
  root_template common_name serial now validity = record {
    serial = serial;
    subject = record {
      common_name = common_name;
      organization = [];
      organizational_unit = "PQC Root CA" ∷ [];
    };
    not_before = now - hour;
    not_after = now + validity;
    key_usage = cert_sign ∷ crl_sign ∷ [];
    unknown_ekus = [];
    is_ca = true;
    pathlen = some 1;
    crl_points = [];
  }

  -- `NewRootCA`
  unfoldable pub new_root_ca : Draw → String → ℕ → Result Error Ca
  unfolding generate_mldsa65_key self_sign
  new_root_ca d common_name validity = elim (generate_mldsa65_key x k d.random) [
    | err e ↦ err (key_failed e)
    | ok sk ↦ elim d.serial [
      | none ↦ err no_serial
      | some serial ↦ with_key sk (self_sign (root_template common_name serial d.now validity) sk)
    ]
  ]

  abbrev intermediate_template : String → ℕ → ℕ → ℕ → Template
  intermediate_template common_name serial now validity = record {
    serial = serial;
    subject = record {
      common_name = common_name;
      organization = [];
      organizational_unit = "PQC Device Signing CA" ∷ [];
    };
    not_before = now - hour;
    not_after = now + validity;
    key_usage = cert_sign ∷ crl_sign ∷ [];
    unknown_ekus = [];
    is_ca = true;
    pathlen = some 0;
    crl_points = [];
  }

  -- `NewIntermediateCA`; the parent is never nil.
  unfoldable pub new_intermediate_ca : Draw → Ca → String → ℕ → Result Error Ca
  unfolding generate_mldsa65_key
  new_intermediate_ca d parent common_name validity = elim (generate_mldsa65_key x k d.random) [
    | err e ↦ err (key_failed e)
    | ok sk ↦ elim d.serial [
      | none ↦ err no_serial
      | some serial ↦ with_key sk (
          parsed (
            p.create_certificate (intermediate_template common_name serial d.now validity)
              (some parent.cert) (k.public sk) parent.key))
    ]
  ]

  abbrev pub device_template : ℕ → ℕ → ℕ → DeviceCertOptions → Template
  device_template serial from to o = record {
    serial = serial;
    subject = o.subject;
    not_before = from;
    not_after = to;
    key_usage = digital_signature ∷ [];
    unknown_ekus = oid_document_signing ∷ [];
    is_ca = false;
    pathlen = none;
    crl_points = if not (o.crl_url == "") then o.crl_url ∷ [] else [];
  }

  -- `IssueDeviceCert`; the request is never nil.
  unfoldable pub issue_device_cert :
      Draw → Ca → Request → DeviceCertOptions → Result Error Certificate
  issue_device_cert d ca csr o =
      if not csr.is_mldsa
      then err not_mldsa
      else let validity : ℕ = if eqb o.validity 0 then year else o.validity in
        let from : ℕ = if eqb o.not_before 0 then d.now - hour else o.not_before in
        elim d.serial [
          | none ↦ err no_serial
          | some serial ↦ parsed (
              p.create_certificate (device_template serial from (from + validity) o) (some ca.cert)
                (record { bytes = csr.public_key; is_mldsa = csr.is_mldsa }) ca.key)
        ]

  abbrev pub list_entry : ℕ → RevokedEntry → RevokedEntry
  list_entry now e = record e { at = if eqb e.at 0 then now else e.at }

  abbrev pub list_template : ℕ → List RevokedEntry → ℕ → ℕ → ListTemplate
  list_template now entries number validity = record {
    number = number;
    this_update = now;
    next_update = now + (if eqb validity 0 then 7 * day else validity);
    entries = map (list_entry now) entries;
  }

  -- `NewCRLDetailed`
  unfoldable pub new_crl_detailed : ℕ → Ca → List RevokedEntry → ℕ → ℕ → Result Error Bytes
  new_crl_detailed now ca entries number validity =
      elim (p.create_list (list_template now entries number validity) ca.cert ca.key) [
        | none ↦ err uncreated
        | some der ↦ ok (k.encode_pem (record { type = "X509 CRL"; bytes = der }))
      ]

  abbrev unlisted : Serial → RevokedEntry
  unlisted n = record { serial = n; reason = 0; at = 0 }

  -- `NewCRL`
  unfoldable pub new_crl : ℕ → Ca → List Serial → ℕ → ℕ → Result Error Bytes
  unfolding new_crl_detailed
  new_crl now ca serials number validity =
      new_crl_detailed now ca (map unlisted serials) number validity

  -- `CertPEM`
  unfoldable pub cert_pem : Certificate → Bytes
  cert_pem c = k.encode_pem (record { type = "CERTIFICATE"; bytes = c.raw })

  -- `ChainPEM`
  unfoldable pub chain_pem : List Certificate → Bytes
  unfolding cert_pem
  chain_pem [] = []
  chain_pem (c ∷ cs) = cert_pem c ++ chain_pem cs
