-- ===== src/CaAdmin/Castore.antt =====
-- castore.go: the CA directory. `x509`, `Keyring` and `Pki` are the parameters of core; `Json` and
-- `Sealing` those of the tool's own files.
pub mod Reloaded
use Prim.Native.String.{[]}
use ttd_elektronik.Prelude.{
  ℕ, ◌+◌, ◌*◌, String, ◌&◌, Bool, true, false, not, ◌&&◌, Option, none, some, List, ◌∷◌, ◌++◌,
  Result, ok, err, Dict, get, put, Ranging, if◌then◌else◌, ◌==◌, Option-cases,
}
use ttd_elektronik.Store.Types.{Bytes}
use ttd_elektronik.Core.Certutil
use ttd_elektronik.Core.Certutil.{X509, parse_certificate_pem}
use ttd_elektronik.Core.Keys.{Keyring, marshal_pkcs8_pem, parse_pkcs8}
use ttd_elektronik.Core.Labpki.{
  Ca, Pki, Draw, year, new_root_ca, new_intermediate_ca, cert_pem, chain_pem,
}
use ttd_elektronik.CaAdmin.Files.{
  Files, Json, Env, Ledger, IssuedRecord, CeremonyEntry, Failure, Action, pure, fail, or_fail,
  ◌>>=◌, ◌>>◌, stop_if, read_file, write_file, append_line, already_exists, not_initialised,
  unreadable, passphrase_needed, no_random, key_failed, ca_failed, cert_unparsable, malformed,
}
use ttd_elektronik.CaAdmin.Keyfile.{Sealing, seal_key_pem, open_key_pem}

-- The outcome of a call of core, as an action.
abbrev pub lift : {E A : Type 0} → (E → Failure) → Result E A → Action A
lift why (ok a) = pure a
lift why (err e) = fail (why e)

abbrev pub done : Action Unit
done = pure tt

-- What one run of the tool draws for the n-th key.
abbrev pub draw : Env → ℕ → Action Draw
draw env n f = elim (env.random n) [
  | none ↦ (f, err no_random)
  | some bytes ↦ (f, ok (record { now = env.now; serial = env.serial n; random = bytes }))
]

abbrev is_there : Option Bytes → Bool
is_there none = false
is_there (some b) = true

-- `exists`
abbrev pub exists : Files → Bool
exists f = is_there (get f.files "intermediate/cert.pem")

-- `encrypted`
abbrev pub encrypted : Files → Bool
encrypted f = is_there (get f.files "intermediate/key.pem.enc")

abbrev pub opened : Env → Files → Result Failure (Unit {0})
opened env f =
    if not (exists f)
    then err not_initialised
    else if encrypted f && env.passphrase == ""
    then err passphrase_needed
    else ok tt

-- Whether the directory exists, as it does as soon as a file is in it.
abbrev pub is_present : Files → Bool
is_present f = elim f.files [ List.[] ↦ f.present | d ∷ ds ↦ true ]

-- `openStore`
unfoldable pub open_store : Env → Action Unit
open_store env f = (f, opened env f)

-- The two files of an authority, and its two forms of key.
abbrev pub key_file : String → String
key_file name = name & "/key.pem"

abbrev pub sealed_file : String → String
sealed_file name = name & "/key.pem.enc"

abbrev pub cert_file : String → String
cert_file name = name & "/cert.pem"

abbrev pub decoded : Json → Option Bytes → Result Failure Ledger
decoded j none = err unreadable
decoded j (some raw) = elim (j.read_ledger raw) [ none ↦ err malformed | some l ↦ ok l ]

module _ (x : X509) (k : Keyring) (p : Pki) (j : Json) (z : Sealing) (env : Env) where
  -- The key in the form that the passphrase asks for; `n` numbers the draws of the salt and, next, of
  -- the nonce.
  abbrev write_key : ℕ → String → Bytes → Action Unit
  write_key n name pem =
      if not (env.passphrase == "")
      then lift (λ e. e) (seal_key_pem j z (env.random n) (env.random (n + 1)) pem env.passphrase)
        >>= write_file env (sealed_file name)
      else write_file env (key_file name) pem

  -- `writeCA`
  unfoldable pub write_ca : ℕ → String → Ca → Action Unit
  write_ca n name ca = do
    pem ← lift key_failed (marshal_pkcs8_pem x k ca.key)
    write_key n name pem
    write_file env (cert_file name) (cert_pem x k p ca.cert)

  -- The private key, from the sealed file where there is one.
  abbrev pub key_pem : String → Files → Result Failure Bytes
  key_pem name f = elim (get f.files (sealed_file name)) [
    | some enc ↦ open_key_pem j z enc env.passphrase
    | none ↦ elim (get f.files (key_file name)) [ none ↦ err unreadable | some raw ↦ ok raw ]
  ]

  abbrev pub certificate_of : Option Bytes → Result Failure Certutil.Certificate
  certificate_of none = err unreadable
  certificate_of (some raw) = elim (parse_certificate_pem x raw) [
    | err e ↦ err cert_unparsable
    | ok cert ↦ ok cert
  ]

  unfoldable pub loaded : String → Files → Result Failure Ca
  loaded name f = elim (key_pem name f) [
    | err e ↦ err e
    | ok pem ↦ elim (parse_pkcs8 x k pem) [
      | err e ↦ err (key_failed e)
      | ok sk ↦ elim (certificate_of (get f.files (cert_file name))) [
        | err e ↦ err e
        | ok cert ↦ ok (record { key = sk; cert = cert })
      ]
    ]
  ]

  -- `loadCA`
  unfoldable pub load_ca : String → Action Ca
  load_ca name f = (f, loaded name f)

  -- `Intermediate` and `Root`
  abbrev pub intermediate : Action Ca
  intermediate = load_ca "intermediate"

  abbrev pub root : Action Ca
  root = load_ca "root"

  -- `loadLedger`
  unfoldable pub load_ledger : Action Ledger
  load_ledger f = (f, decoded j (get f.files "ledger.json"))

  -- `saveLedger`
  unfoldable pub save_ledger : Ledger → Action Unit
  save_ledger l = write_file env "ledger.json" (j.ledger l)

  -- `appendIssued`
  unfoldable pub append_issued : IssuedRecord → Action Unit
  append_issued r = append_line env "issued.jsonl" (j.issued r)

  abbrev pub write_all : List (String × Bytes) → Action Unit
  write_all List.[] = done
  write_all ((name, b) ∷ rest) = write_file env name b >> write_all rest

  abbrev pub public_files : Ca → Ca → Option Bytes → List (String × Bytes)
  public_files root_ca inter crl =
      ("public/root-ca.crt.pem", cert_pem x k p root_ca.cert)
      ∷ ("public/intermediate-ca.crt.pem", cert_pem x k p inter.cert)
      ∷ ("public/ca-chain.pem", chain_pem x k p (inter.cert ∷ root_ca.cert ∷ List.[]))
      ∷ elim crl [ none ↦ List.[] | some b ↦ ("public/crl.pem", b) ∷ List.[] ]

  -- `publish`: the files in the order in which the runtime ranges over the map.
  unfoldable pub publish : Ranging → Ca → Option Bytes → Action Unit
  publish r inter crl = do
    root_ca ← root
    write_all (r.range (String × Bytes) (public_files root_ca inter crl))

  -- `MkdirAll`
  abbrev made : Action Unit
  made f = (record f { present = true }, ok tt)

  abbrev make : Ranging → String → String → Action Unit
  make r root_cn inter_cn = do
    d ← draw env 0
    root_ca ← lift ca_failed (new_root_ca x k p d root_cn (10 * year))
    e ← draw env 1
    inter ← lift ca_failed (new_intermediate_ca x k p e root_ca inter_cn (5 * year))
    made
    write_ca 2 "root" root_ca
    write_ca 4 "intermediate" inter
    publish r inter none
    save_ledger (record { crl_number = 0; revocations = List.[] })

  -- `Init`
  unfoldable pub init : Ranging → String → String → Action Unit
  init r root_cn inter_cn f =
      if is_present f then (f, err already_exists) else make r root_cn inter_cn f
