-- ===== src/CaAdmin/Audit.antt =====
-- castore.go: the log of ceremonies, and the search of public/ for private keys.
use ttd_elektronik.Prelude.{
  ℕ, ◌-◌, String, Bool, true, false, ◌&&◌, Option, none, some, List, ◌∷◌, Dict, get, put, empty,
  if◌then◌else◌, eqb, leb, strip_prefix,
}
use ttd_elektronik.Store.Types.{Bytes}
use ttd_elektronik.Core.Certutil.{X509}
use ttd_elektronik.CaAdmin.Files.{Files, Json, Env, CeremonyEntry, Action, append_line}
use ttd_elektronik.CaAdmin.Castore.{encrypted}

module _ (x : X509) (j : Json) (env : Env) where
  -- `sha256File`
  unfoldable pub sha256_file : String → Files → Option String
  sha256_file rel f = elim (get f.files rel) [ none ↦ none | some b ↦ some (x.sha256_hex b) ]

  -- The sums of the artifacts that can be read.
  unfoldable pub sums : List String → Files → Dict String → Dict String
  sums List.[] f d = d
  sums (a ∷ more) f d = elim (sha256_file a f) [
    | none ↦ sums more f d
    | some sum ↦ sums more f (put d a sum)
  ]

  abbrev entry : String → String → List String → Files → CeremonyEntry
  entry action note artifacts f = record {
    at = env.now;
    action = action;
    operator = env.operator;
    encrypted = encrypted f;
    artifacts = sums artifacts f empty;
    note = note;
  }

  -- `logCeremony`
  unfoldable pub log_ceremony : String → String → List String → Action Unit
  log_ceremony action note artifacts f =
      append_line env "ceremony.jsonl" (j.ceremony (entry action note artifacts f)) f

-- `strings.ToUpper` of ASCII text; a letter beyond ASCII is left as it is.
abbrev upper : ℕ → ℕ
upper c = if leb 97 c && leb c 122 then c - 32 else c

abbrev begins : Bytes → Bytes → Bool
begins List.[] s = true
begins (p ∷ ps) List.[] = false
begins (p ∷ ps) (c ∷ s) = if eqb p (upper c) then begins ps s else false

-- `strings.Contains(strings.ToUpper(s), sub)`, where `sub` is in upper case
abbrev pub contains : Bytes → Bytes → Bool
contains sub List.[] = begins sub List.[]
contains sub (c ∷ s) = if begins sub (c ∷ s) then true else contains sub s

abbrev pub private_key : Bytes
private_key = b'P' ∷ b'R' ∷ b'I' ∷ b'V' ∷ b'A' ∷ b'T' ∷ b'E' ∷ b' ' ∷ b'K' ∷ b'E' ∷ b'Y' ∷ List.[]

abbrev pub begin_ec_private : Bytes
begin_ec_private =
    b'B' ∷ b'E' ∷ b'G' ∷ b'I' ∷ b'N' ∷ b' ' ∷ b'E' ∷ b'C' ∷ b' ' ∷ b'P' ∷ b'R' ∷ b'I' ∷ b'V' ∷ b'A'
    ∷ b'T' ∷ b'E' ∷ List.[]

abbrev pub begin_rsa_private : Bytes
begin_rsa_private =
    b'B' ∷ b'E' ∷ b'G' ∷ b'I' ∷ b'N' ∷ b' ' ∷ b'R' ∷ b'S' ∷ b'A' ∷ b' ' ∷ b'P' ∷ b'R' ∷ b'I' ∷ b'V'
    ∷ b'A' ∷ b'T' ∷ b'E' ∷ List.[]

-- `bytesContainsAny`
abbrev pub contains_any : Bytes → List Bytes → Bool
contains_any b List.[] = false
contains_any b (x ∷ xs) = if contains x b then true else contains_any b xs

abbrev pub looks_private : Bytes → Bool
looks_private b = contains_any b (private_key ∷ begin_ec_private ∷ begin_rsa_private ∷ List.[])

-- The files of public/, by their names there.
unfoldable pub public_entries : Dict Bytes → Dict Bytes
public_entries List.[] = List.[]
public_entries ((path, b) ∷ rest) = elim (strip_prefix "public/" path) [
  | none ↦ public_entries rest
  | some name ↦ (name, b) ∷ public_entries rest
]

abbrev pub first_leak : Dict Bytes → Option String
first_leak List.[] = none
first_leak ((name, b) ∷ rest) = if looks_private b then some name else first_leak rest

-- `hasPrivateKeyLeak`; `read_dir` is the order in which `os.ReadDir` gives the files.
unfoldable pub has_private_key_leak : (Dict Bytes → Dict Bytes) → Files → Option String
has_private_key_leak read_dir f = first_leak (read_dir (public_entries f.files))
