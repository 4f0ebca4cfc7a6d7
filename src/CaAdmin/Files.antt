-- ===== src/CaAdmin/Files.antt =====
-- The files that a command of the tool reads and writes, and the records in them (castore.go). A file is
-- named by its path inside the CA directory; what is written elsewhere is in `outputs`. A write that
-- cannot open the file leaves it alone; one that breaks off leaves it with the bytes written by then, as
-- `os.WriteFile` empties a file before it writes.
pub mod Keeps
use Prim.Native.String.{[]}
use ttd_elektronik.Prelude.{
  ℕ, String, Bool, Option, none, some, List, ◌∷◌, ◌++◌, Result, ok, err, Dict, get, put, take,
  false, ◌==◌, ◌≡◌, if◌then◌else◌,
}
use ttd_elektronik.Store.Types.{Bytes}
use ttd_elektronik.Core.Enrollment
use ttd_elektronik.Core.Keys
use ttd_elektronik.Core.Labpki

pub record Revocation : Type 0 where
  pub serial : String
  pub reason : String
  pub reason_code : ℕ
  pub revoked_at : ℕ

pub record Ledger : Type 0 where
  pub crl_number : ℕ
  pub revocations : List Revocation

pub record CeremonyEntry : Type 0 where
  pub at : ℕ
  pub action : String
  pub operator : String
  pub encrypted : Bool
  pub artifacts : Dict String
  pub note : String

pub record IssuedRecord : Type 0 where
  pub serial : String
  pub subject : String
  pub account : String
  pub device_label : String
  pub fingerprint : String
  pub not_after : ℕ
  pub issued_at : ℕ
  pub csr_fp : String

pub record EncBlob : Type 0 where
  pub version : ℕ
  pub kdf : String
  pub time : ℕ
  pub mem_kib : ℕ
  pub threads : ℕ
  pub salt : Bytes
  pub nonce : Bytes
  pub ct : Bytes

-- What encoding/json does with these records.
pub record Json : Type 0 where
  pub ledger : Ledger → Bytes
  pub read_ledger : Bytes → Option Ledger
  pub issued : IssuedRecord → Bytes
  pub ceremony : CeremonyEntry → Bytes
  pub blob : EncBlob → Bytes
  pub read_blob : Bytes → Option EncBlob

-- What was written is read back.
pub record ReadsBack (j : Json) : Type 0 where
  pub ledger : (l : Ledger) → j.read_ledger (j.ledger l) ≡ some l
  pub blob : (b : EncBlob) → j.read_blob (j.blob b) ≡ some b

-- `present` is whether the directory exists where no file is in it.
pub record Files : Type 0 where
  pub present : Bool
  pub files : Dict Bytes
  pub outputs : Dict Bytes

-- What one run of the tool finds around it: the variables PQC_CA_PASSPHRASE and PQC_CA_OPERATOR, the
-- clock, which paths can be opened for writing, after how many bytes a write of a path breaks off,
-- which path of the CA directory a path of a flag names, if any; the n-th draw of random bytes, the n-th random serial.
pub record Env : Type 0 where
  pub passphrase : String
  pub operator : String
  pub now : ℕ
  pub can_write : String → Bool
  pub breaks : String → Option ℕ
  pub inside : String → Option String
  pub random : ℕ → Option Bytes
  pub serial : ℕ → Option ℕ

pub data Failure : Type 0 where
  already_exists not_initialised passphrase_needed empty_passphrase : Failure
  wrong_passphrase bad_blob bad_format no_random : Failure
  unreadable unwritable malformed : Failure
  key_failed : Keys.Error → Failure
  ca_failed : Labpki.Error → Failure
  csr_rejected : Enrollment.Error → Failure
  cert_unparsable missing_flags bad_serial unknown_reason already_revoked : Failure
  key_leak : String → Failure

abbrev pub Action : Type 0 → Type 0
Action A = Files → Files × Result Failure A

module _ {A : Type 0} where
  abbrev pub pure : A → Action A
  pure a f = (f, ok a)

  abbrev pub fail : Failure → Action A
  fail e f = (f, err e)

  abbrev pub or_fail : Option A → Failure → Action A
  or_fail none e = fail e
  or_fail (some a) e = pure a

infixl 5 ◌>>=◌ ◌>>◌
abbrev pub ◌>>=◌ : {A B : Type 0} → Action A → (A → Action B) → Action B
◌>>=◌ m k f = let (f', r) = m f in elim r [ ok a ↦ k a f' | err e ↦ (f', err e) ]

abbrev pub ◌>>◌ : {A B : Type 0} → Action A → Action B → Action B
m >> k = m >>= λ _. k

-- An error that the code throws away.
abbrev pub attempt : {A : Type 0} → Action A → Action Unit
attempt m f = let (f', r) = m f in (f', ok tt)

abbrev pub stop_if : Bool → Failure → Action Unit
stop_if c e f = (f, if c then err e else ok tt)

-- `os.ReadFile(s.path(p))`
abbrev pub read_file : String → Action Bytes
read_file p f = elim (get f.files p) [ none ↦ (f, err unreadable) | some b ↦ (f, ok b) ]

module _ (env : Env) where
  -- `os.WriteFile(s.path(p), b, mode)`
  unfoldable pub write_file : String → Bytes → Action Unit
  write_file p b f =
      if env.can_write p
      then elim (env.breaks p) [
        | none ↦ (record f { files = put f.files p b }, ok tt)
        | some n ↦ (record f { files = put f.files p (take n b) }, err unwritable)
      ]
      else (f, err unwritable)

  -- `os.OpenFile(s.path(p), O_APPEND|O_CREATE)` and a write of one line.
  unfoldable pub append_line : String → Bytes → Action Unit
  append_line p line f =
      let before : Bytes = elim (get f.files p) [ none ↦ List.[] | some b ↦ b ] in
      let whole : Bytes = line ++ 10 ∷ List.[] in
      if env.can_write p
      then elim (env.breaks p) [
        | none ↦ (record f { files = put f.files p (before ++ whole) }, ok tt)
        | some n ↦ (record f { files = put f.files p (before ++ take n whole) }, err unwritable)
      ]
      else (f, err unwritable)

  abbrev written_outside : String → Bytes → Action Unit
  written_outside p b f =
      if env.can_write p
      then elim (env.breaks p) [
        | none ↦ (record f { outputs = put f.outputs p b }, ok tt)
        | some n ↦ (record f { outputs = put f.outputs p (take n b) }, err unwritable)
      ]
      else (f, err unwritable)

  -- `os.WriteFile` of the path of a flag, which may name a file inside the CA directory.
  unfoldable pub write_output : String → Bytes → Action Unit
  write_output p b f = elim (env.inside p) [
    | none ↦ written_outside p b f
    | some q ↦ write_file q b f
  ]

  -- What is written under the flag `p` is not the file `path` of the CA directory.
  abbrev pub Spares : String → String → Type 0
  Spares p path = (q : String) → env.inside p ≡ some q → (q == path) ≡ false
