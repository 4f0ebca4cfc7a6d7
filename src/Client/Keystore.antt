-- ===== src/Client/Keystore.antt =====
-- apps/windows/internal/keystore/envelope.go: the device's private key, sealed under a fresh wrapping key
-- that is itself sealed under a PIN, if there is one, and bound to the Windows account by DPAPI. Argon2id
-- and AES-256-GCM are the parameter `Sealing`, DPAPI of one account is `Dpapi`, encoding/json of the
-- blob is `Codec`.
pub mod Opened
pub mod Vault
use Prim.Native.String.{[]}
use ttd_elektronik.Prelude.{
  ℕ, ◌*◌, String, Bool, true, false, not, Option, none, some, List, ◌∷◌, Result, ok, err,
  if◌then◌else◌, ◌==◌, eqb,
}
use ttd_elektronik.Store.Types.{Bytes}
use ttd_elektronik.CaAdmin.Keyfile.{Sealing}

pub record Dpapi : Type 0 where
  pub protect : Bytes → Option Bytes
  pub unprotect : Bytes → Option Bytes

pub record KdfParams : Type 0 where
  pub name : String
  pub time_cost : ℕ
  pub mem_kib : ℕ
  pub threads : ℕ
  pub salt : Bytes

pub record Blob : Type 0 where
  pub version : ℕ
  pub created_at : ℕ
  pub kdf : Option KdfParams
  pub key_nonce : Bytes
  pub key_ct : Bytes
  pub wrap_nonce : Bytes
  pub wrap_ct : Bytes
  pub dpapi_blob : Bytes

pub record Codec : Type 0 where
  pub write : Blob → Bytes
  pub read : Bytes → Option Blob

-- What one call of `Protect` draws; each may fail.
pub record Draws : Type 0 where
  pub now : ℕ
  pub wrap_key : Option Bytes
  pub key_nonce : Option Bytes
  pub salt : Option Bytes
  pub wrap_nonce : Option Bytes

pub data Failure : Type 0 where
  empty_key no_random dpapi_failed : Failure
  bad_blob bad_version pin_needed wrong_pin corrupt : Failure
  no_file unwritable : Failure

abbrev pub blob_version : ℕ
blob_version = 1

abbrev pub argon_time : ℕ
argon_time = 3

abbrev pub argon_mem_kib : ℕ
argon_mem_kib = 64 * 1024

abbrev pub argon_threads : ℕ
argon_threads = 4

module _ (z : Sealing) (w : Dpapi) (j : Codec) where
  -- `seal`, given the draw of the nonce.
  abbrev pub seal : Option Bytes → Bytes → Bytes → Result Failure (Bytes × Bytes)
  seal none key plaintext = err no_random
  seal (some nonce) key plaintext = ok (nonce, z.seal key nonce plaintext)

  -- `openSeal`
  abbrev pub open_seal : Bytes → Bytes → Bytes → Option Bytes
  open_seal key nonce ct = z.open_ key nonce ct

  -- `pinKey`
  abbrev pub pin_key : String → KdfParams → Bytes
  pin_key pin k = z.derive pin k.salt k.time_cost k.mem_kib k.threads

  abbrev pub params : Bytes → KdfParams
  params salt = record {
    name = "argon2id";
    time_cost = argon_time;
    mem_kib = argon_mem_kib;
    threads = argon_threads;
    salt = salt;
  }

  -- The last step of `Protect`: DPAPI over what is to be protected.
  abbrev pub bound : Blob → Bytes → Result Failure Bytes
  bound b secret = elim (w.protect secret) [
    | none ↦ err dpapi_failed
    | some dp ↦ ok (j.write (record b { dpapi_blob = dp }))
  ]

  -- The step for a PIN.
  abbrev pub with_pin : Draws → String → Blob → Bytes → Result Failure Bytes
  with_pin d pin b wrap_key = elim d.salt [
    | none ↦ err no_random
    | some salt ↦ elim (seal d.wrap_nonce (pin_key pin (params salt)) wrap_key) [
      | err e ↦ err e
      | ok (wn, wct) ↦
          bound (record b { kdf = some (params salt); wrap_nonce = wn; wrap_ct = wct }) wct
    ]
  ]

  abbrev pub without_pin : Draws → Bytes → Bytes → Blob
  without_pin d nonce ct = record {
    version = blob_version;
    created_at = d.now;
    kdf = none;
    key_nonce = nonce;
    key_ct = ct;
    wrap_nonce = List.[];
    wrap_ct = List.[];
    dpapi_blob = List.[];
  }

  abbrev pub protect_with : Draws → String → Bytes → Bytes → Result Failure Bytes
  protect_with d pin pkcs8 wrap_key = elim (seal d.key_nonce wrap_key pkcs8) [
    | err e ↦ err e
    | ok (nonce, ct) ↦
        let b = without_pin d nonce ct in
        if not (pin == "") then with_pin d pin b wrap_key else bound b wrap_key
  ]

  -- `Protect`; a PIN of "" is none.
  unfoldable pub protect : Draws → String → Bytes → Result Failure Bytes
  protect d pin List.[] = err empty_key
  protect d pin (x ∷ xs) = elim d.wrap_key [
    | none ↦ err no_random
    | some wrap_key ↦ protect_with d pin (x ∷ xs) wrap_key
  ]

  -- The wrapping key, from what DPAPI gives.
  abbrev pub wrapping_key : Blob → String → Bytes → Result Failure Bytes
  wrapping_key b pin secret = elim b.kdf [
    | none ↦ ok secret
    | some k ↦
        if pin == "" then err pin_needed else elim (open_seal (pin_key pin k) b.wrap_nonce secret) [
          | none ↦ err wrong_pin
          | some wrap_key ↦ ok wrap_key
        ]
  ]

  -- `Unprotect`
  unfoldable pub unprotect : String → Bytes → Result Failure Bytes
  unprotect pin raw = elim (j.read raw) [
    | none ↦ err bad_blob
    | some b ↦
        if not (eqb b.version blob_version)
        then err bad_version
        else elim (w.unprotect b.dpapi_blob) [
          | none ↦ err dpapi_failed
          | some secret ↦ elim (wrapping_key b pin secret) [
            | err e ↦ err e
            | ok wrap_key ↦ elim (open_seal wrap_key b.key_nonce b.key_ct) [
              | none ↦ err corrupt
              | some pkcs8 ↦ ok pkcs8
            ]
          ]
        ]
  ]
