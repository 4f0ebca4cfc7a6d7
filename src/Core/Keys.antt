-- ===== src/Core/Keys.antt =====
-- core/keys/keys.go: private keys as PKCS#8, of one algorithm. What crypto/mldsa, crypto/x509 and
-- encoding/pem do is the parameter `Keyring`; a private key is the bytes that it is made of.
use ttd_elektronik.Prelude.{
  String, Bool, true, not, ◌&&◌, Option, none, some, [], ◌∷◌, Result, ok, err, ◌≡◌, arith,
  Option-cases, inl, inr, if◌then◌else◌, same_bytes,
}
use ttd_elektronik.Store.Types.{Bytes}
use ttd_elektronik.Core.Certutil.{X509, Block}

-- A key as `x509.ParsePKCS8PrivateKey` gives it: whether it is an ML-DSA key, and of that strength.
pub record Parsed : Type 0 where
  pub secret : Bytes
  pub is_mldsa : Bool
  pub is_mldsa65 : Bool

-- The public half of a key.
pub record PublicKey : Type 0 where
  pub bytes : Bytes
  pub is_mldsa : Bool

-- `generate` is given what is drawn at random; `der` is `x509.MarshalPKCS8PrivateKey`.
pub record Keyring : Type 0 where
  pub generate : Bytes → Option Bytes
  pub der : Bytes → Option Bytes
  pub parse_der : Bytes → Option Parsed
  pub public : Bytes → PublicKey
  pub encode_pem : Block → Bytes

pub data Error : Type 0 where
  ungenerated unmarshalled unparsable not_mldsa not_mldsa65 : Error

abbrev pub pem_type_private_key : String
pem_type_private_key = "PRIVATE KEY"

module _ (x : X509) (k : Keyring) where
  -- `GenerateMLDSA65Key`
  unfoldable pub generate_mldsa65_key : Bytes → Result Error Bytes
  generate_mldsa65_key random = elim (k.generate random) [
    | none ↦ err ungenerated
    | some sk ↦ ok sk
  ]

  -- `MarshalPKCS8`; the key is never nil.
  unfoldable pub marshal_pkcs8 : Bytes → Result Error Bytes
  marshal_pkcs8 sk = elim (k.der sk) [ none ↦ err unmarshalled | some der ↦ ok der ]

  -- `MarshalPKCS8PEM`
  unfoldable pub marshal_pkcs8_pem : Bytes → Result Error Bytes
  unfolding marshal_pkcs8
  marshal_pkcs8_pem sk = elim (marshal_pkcs8 sk) [
    | err e ↦ err e
    | ok der ↦ ok (k.encode_pem (record { type = pem_type_private_key; bytes = der }))
  ]

  abbrev pub der_of : Bytes → Bytes
  der_of raw = elim (x.blocks raw) [ [] ↦ raw | b ∷ bs ↦ b.bytes ]

  -- `ParsePKCS8`
  unfoldable pub parse_pkcs8 : Bytes → Result Error Bytes
  parse_pkcs8 raw = elim (k.parse_der (der_of raw)) [
    | none ↦ err unparsable
    | some p ↦
        if not p.is_mldsa
        then err not_mldsa
        else if not p.is_mldsa65
        then err not_mldsa65
        else ok p.secret
  ]

  -- `SameKeyPair`
  unfoldable pub same_key_pair : Bytes → PublicKey → Bool
  same_key_pair sk theirs = theirs.is_mldsa && same_bytes (k.public sk).bytes theirs.bytes

-- What the code relies on, for the key `sk`: its PKCS#8 form is one block, and reads back as an
-- ML-DSA-65 key.
pub record IsKept (x : X509) (k : Keyring) (sk : Bytes) : Type 0 where
  pub read_back :
      (der : Bytes)
      → k.der sk ≡ some der
      → (x.blocks (k.encode_pem (record { type = pem_type_private_key; bytes = der }))
          ≡ record { type = pem_type_private_key; bytes = der } ∷ [])
        × (k.parse_der der ≡ some (record { secret = sk; is_mldsa = true; is_mldsa65 = true }))

-- What `MarshalPKCS8PEM` writes for a key, `ParsePKCS8` reads as that key.
pub parse_pkcs8-marshal_pkcs8_pem :
    (x : X509) (k : Keyring) (sk pem : Bytes)
    → IsKept x k sk
    → marshal_pkcs8_pem x k sk ≡ ok pem
    → parse_pkcs8 x k pem ≡ ok sk
unfolding marshal_pkcs8_pem marshal_pkcs8 parse_pkcs8
parse_pkcs8-marshal_pkcs8_pem x k sk pem kept e = elim (Option-cases (k.der sk)) [
  | inl failed ↦ absurd (ground arith)
  | inr (der, made) ↦ ground (arith, kept.read_back der made)
]
