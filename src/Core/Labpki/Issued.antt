-- ===== src/Core/Labpki/Issued.antt =====
-- What the authority issues passes the checks of core/certutil.
use ttd_elektronik.Prelude.{
  ℕ, ◌+◌, ◌-◌, ◌*◌, ◌/◌, ◌≤◌, true, Option, some, List, [], ◌∷◌, ok, eqb, ◌≡◌, ◌↔◌, if◌then◌else◌,
  arith, Option-cases, Bool-cases, inl, inr, In, refl, ◌∙◌, ap,
}
use ttd_elektronik.Store.Types.{Bytes}
use ttd_elektronik.Core.Certutil.{
  X509, Certificate, Crl, Block, describe, parse_and_validate_certificate, parse_certificate_pem,
}
use ttd_elektronik.Core.Certutil.Profile.{HasProfile, parse_and_validate_certificate_iff}
use ttd_elektronik.Core.Certutil.Revocation.{Lists}
use ttd_elektronik.Core.Enrollment.{Request}
use ttd_elektronik.Core.Keys.{Keyring, PublicKey}
use ttd_elektronik.Core.Labpki.{
  Ca, Template, ListTemplate, RevokedEntry, plain, Pki, Draw, DeviceCertOptions, hour, year,
  issue_device_cert, device_template, cert_pem,
}

-- DER holds an instant in whole seconds.
abbrev pub in_seconds : ℕ → ℕ
in_seconds t = (t / 1000000000) * 1000000000

-- A certificate that carries what its template says.
pub record IsMadeFrom (t : Template) (key : PublicKey) (der : Bytes) (c : Certificate)
    : Type 0 where
  pub raw : c.raw ≡ der
  pub serial : c.serial ≡ t.serial
  pub begins : c.not_before ≡ in_seconds t.not_before
  pub ends : c.not_after ≡ in_seconds t.not_after
  pub leaf : c.is_ca ≡ t.is_ca
  pub usages : c.unknown_ekus ≡ t.unknown_ekus
  pub keyed : c.public_key ≡ key.bytes
  pub mldsa : c.is_mldsa ≡ key.is_mldsa

abbrev pub Names : List RevokedEntry → ℕ → Type 0
Names es n = (e : RevokedEntry) × In e es × (e.serial ≡ plain n)

-- The key of an authority is the one that its certificate certifies.
abbrev pub IsPaired : Keyring → Ca → Type 0
IsPaired k ca = (k.public ca.key).bytes ≡ ca.cert.public_key

-- What crypto/x509 and encoding/pem document: what they create has the template's fields, and is read
-- back; the serials of a list are those of its template, and the signature of a list that is made with
-- the issuer's key is the issuer's.
pub record IsFaithful (x : X509) (k : Keyring) (p : Pki) : Type 0 where
  pub certificate :
      (t : Template) (parent : Option Certificate) (key : PublicKey) (sk der : Bytes)
      (c : Certificate)
      → p.create_certificate t parent key sk ≡ some der
      → x.parse_certificate der ≡ some c
      → IsMadeFrom t key der c
  pub list :
      (t : ListTemplate) (issuer : Certificate) (sk der : Bytes)
      → (k.public sk).bytes ≡ issuer.public_key
      → p.create_list t issuer sk ≡ some der
      → (crl : Crl) × (x.parse_crl der ≡ some crl)
        × (x.signed_by crl issuer ≡ true)
        × ((n : ℕ) → Lists crl n ↔ Names t.entries n)
  pub pem : (b : Block) → x.blocks (k.encode_pem b) ≡ b ∷ []

module _ (x : X509) (k : Keyring) (p : Pki) (faithful : IsFaithful x k p) where
  module _ (d : Draw) (ca : Ca) (csr : Request) (o : DeviceCertOptions) (c : Certificate) where
    abbrev validity : ℕ
    validity = if eqb o.validity 0 then year else o.validity

    abbrev from : ℕ
    from = if eqb o.not_before 0 then d.now - hour else o.not_before

    abbrev key : PublicKey
    key = record { bytes = csr.public_key; is_mldsa = csr.is_mldsa }

    abbrev created : ℕ → Option Bytes
    created serial =
        p.create_certificate (device_template x k p serial from (from + validity) o) (some ca.cert)
          key ca.key

    issue_device_cert-IsMadeFrom :
        issue_device_cert x k p d ca csr o ≡ ok c
        → (csr.is_mldsa ≡ true)
          × ((serial : ℕ) × (der : Bytes) × (d.serial ≡ some serial)
              × IsMadeFrom (device_template x k p serial from (from + validity) o) key der c
              × (x.parse_certificate der ≡ some c))
    unfolding issue_device_cert
    issue_device_cert-IsMadeFrom e =
        let mldsa : csr.is_mldsa ≡ true = ground (arith, Bool-cases csr.is_mldsa) in
        elim (Option-cases d.serial) [
          | inl missing ↦ absurd (ground arith)
          | inr (serial, drawn) ↦ elim (Option-cases (created serial)) [
            | inl failed ↦ absurd (ground arith)
            | inr (der, made) ↦ elim (Option-cases (x.parse_certificate der)) [
              | inl garbled ↦ absurd (ground arith)
              | inr (c', read) ↦
                  let same : c' ≡ c = ground arith in
                  let read' : x.parse_certificate der ≡ some c = rw (← same) read in
                  (
                    mldsa,
                    (
                      serial,
                      der,
                      drawn,
                      faithful.certificate _ _ key ca.key der c made read',
                      read',
                    ),
                  )
            ]
          ]
        ]

    -- A certificate that the authority issues for a request has the key of the request and, from an
    -- hour before it was issued until it ends, passes the check of device certificates in its PEM
    -- form, where the options name no other beginning.
    pub issue_device_cert-accepted :
        issue_device_cert x k p d ca csr o ≡ ok c
        → o.not_before ≡ 0
        → (at : ℕ) → d.now - hour ≤ at
        → at ≤ in_seconds (d.now - hour + validity)
        → (c.public_key ≡ csr.public_key)
          × (parse_and_validate_certificate x (cert_pem x k p c) at ≡ ok (c, describe x c))
    unfolding cert_pem parse_certificate_pem
    issue_device_cert-accepted e begins at begun running =
        let (mldsa, (serial, der, drawn, made, read)) = issue_device_cert-IsMadeFrom e in
        let read_raw : x.parse_certificate c.raw ≡ some c =
          ap x.parse_certificate made.raw ∙ read in
        let profile : HasProfile at c = record {
          mldsa = made.mldsa ∙ mldsa;
          begun = ground (arith, made.begins);
          running = ground (arith, made.ends);
          leaf = made.leaf;
          document_signing = rw made.usages refl;
        } in
        (
          made.keyed,
          (parse_and_validate_certificate_iff x (cert_pem x k p c) at c (describe x c)).1 (
            rw (faithful.pem (record { type = "CERTIFICATE"; bytes = c.raw }), read_raw)
                (ground arith),
            profile,
            refl,
          ),
        )
