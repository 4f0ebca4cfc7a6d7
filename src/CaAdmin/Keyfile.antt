-- ===== src/CaAdmin/Keyfile.antt =====
-- keyfile.go: a CA key under a passphrase. Argon2id and AES-256-GCM are the parameter `Sealing`; a
-- 32-byte key is always accepted by `aes.NewCipher`.
pub mod Sealed
use ttd_elektronik.Prelude.{
  ℕ, ◌*◌, String, Option, none, some, not, ◌||◌, ◌==◌, eqb, if◌then◌else◌, Result, ok, err, ◌≡◌,
}
use ttd_elektronik.Store.Types.{Bytes}
use ttd_elektronik.CaAdmin.Files.{
  EncBlob, Json, Env, Failure, empty_passphrase, no_random, bad_blob, bad_format, passphrase_needed,
  wrong_passphrase,
}

-- `derive` is `argon2.IDKey` with a key of 32 bytes, of the passphrase, the salt, t, m and p.
pub record Sealing : Type 0 where
  pub derive : String → Bytes → ℕ → ℕ → ℕ → Bytes
  pub seal : Bytes → Bytes → Bytes → Bytes
  pub open_ : Bytes → Bytes → Bytes → Option Bytes

abbrev pub enc_version : ℕ
enc_version = 1

abbrev pub argon_time : ℕ
argon_time = 3

abbrev pub argon_mem_kib : ℕ
argon_mem_kib = 256 * 1024

abbrev pub argon_threads : ℕ
argon_threads = 4

module _ (j : Json) (z : Sealing) where
  -- `deriveKey`
  abbrev pub derive_key : String → Bytes → ℕ → ℕ → ℕ → Bytes
  derive_key pass salt t m p = z.derive pass salt t m p

  abbrev pub sealed_blob : String → Bytes → Bytes → Bytes → EncBlob
  sealed_blob pass salt nonce pem = record {
    version = enc_version;
    kdf = "argon2id";
    time = argon_time;
    mem_kib = argon_mem_kib;
    threads = argon_threads;
    salt = salt;
    nonce = nonce;
    ct = z.seal (derive_key pass salt argon_time argon_mem_kib argon_threads) nonce pem;
  }

  -- `sealKeyPEM`, given the draws of the salt and of the nonce.
  unfoldable pub seal_key_pem : Option Bytes → Option Bytes → Bytes → String → Result Failure Bytes
  seal_key_pem salt nonce pem pass = if pass == "" then err empty_passphrase else elim salt [
    | none ↦ err no_random
    | some salt ↦ elim nonce [
      | none ↦ err no_random
      | some nonce ↦ ok (j.blob (sealed_blob pass salt nonce pem))
    ]
  ]

  -- `openKeyPEM`
  unfoldable pub open_key_pem : Bytes → String → Result Failure Bytes
  open_key_pem raw pass = elim (j.read_blob raw) [
    | none ↦ err bad_blob
    | some b ↦
        if not (eqb b.version enc_version) || not (b.kdf == "argon2id")
        then err bad_format
        else if pass == ""
        then err passphrase_needed
        else elim (z.open_ (derive_key pass b.salt b.time b.mem_kib b.threads) b.nonce b.ct) [
          | none ↦ err wrong_passphrase
          | some pt ↦ ok pt
        ]
  ]
