-- ===== src/CaAdmin/Status.antt =====
-- main.go: `cmdStatus` and its gate, and `cmdShow`.
pub mod Gate
use Prim.Native.String.{[]}
use ttd_elektronik.Prelude.{
  ℕ, ◌+◌, String, Bool, true, false, ◌&&◌, ◌||◌, Option, none, some, List, ◌∷◌, Result, ok, err,
  Dict, get, if◌then◌else◌, ◌==◌, eqb, leb, length,
}
use ttd_elektronik.Store.Types.{Bytes}
use ttd_elektronik.Core.Certutil.{X509, CertInfo, Crl, describe}
use ttd_elektronik.Core.Keys.{Keyring}
use ttd_elektronik.Core.Labpki.{Ca, Pki}
use ttd_elektronik.CaAdmin.Files.{Files, Json, Env, Failure, key_leak}
use ttd_elektronik.CaAdmin.Keyfile.{Sealing}
use ttd_elektronik.CaAdmin.Castore.{opened, encrypted, loaded, decoded}
use ttd_elektronik.CaAdmin.Audit.{has_private_key_leak}

-- `strings.TrimSpace` of ASCII text
abbrev is_blank : ℕ → Bool
is_blank c = leb 9 c && leb c 13 || eqb c 32

abbrev trim_front : Bytes → Bytes
trim_front List.[] = List.[]
trim_front (c ∷ s) = let rest = trim_front s in if is_blank c then rest else c ∷ s

abbrev trim_back : Bytes → Bytes
trim_back List.[] = List.[]
trim_back (c ∷ s) = elim (trim_back s) [
  | List.[] ↦ if is_blank c then List.[] else c ∷ List.[]
  | d ∷ t ↦ c ∷ d ∷ t
]

-- `strings.Count(s, "\n")`
abbrev newlines : Bytes → ℕ
newlines List.[] = 0
newlines (c ∷ s) = let rest = newlines s in if eqb c 10 then rest + 1 else rest

-- The number of certificates issued, by the lines of issued.jsonl.
unfoldable pub issued_count : Option Bytes → ℕ
issued_count none = 0
issued_count (some List.[]) = 0
issued_count (some (c ∷ s)) = newlines (trim_back (trim_front (c ∷ s))) + 1

-- What is printed; the ledger's line is left out where it cannot be read.
pub record Status : Type 0 where
  pub keys_encrypted : Bool
  pub root : Ca
  pub inter : Ca
  pub issued : ℕ
  pub revocations : Option (ℕ × ℕ)

module _ (x : X509) (k : Keyring) (p : Pki) (j : Json) (z : Sealing) (env : Env)
    (read_dir : Dict Bytes → Dict Bytes) where
  abbrev status_of : Files → Ca → Ca → Status
  status_of f root_ca inter = record {
    keys_encrypted = encrypted f;
    root = root_ca;
    inter = inter;
    issued = issued_count (get f.files "issued.jsonl");
    revocations = elim (decoded j (get f.files "ledger.json")) [
      | err e ↦ none
      | ok l ↦ some (length l.revocations, l.crl_number)
    ];
  }

  -- `cmdStatus`: what it prints, and its error.
  unfoldable pub cmd_status : Files → Option Status × Option Failure
  cmd_status f = elim (opened env f) [
    | err e ↦ (none, some e)
    | ok u ↦ elim (loaded x k p j z env "root" f) [
      | err e ↦ (none, some e)
      | ok root_ca ↦ elim (loaded x k p j z env "intermediate" f) [
        | err e ↦ (none, some e)
        | ok inter ↦ (
          some (status_of f root_ca inter),
          elim (has_private_key_leak read_dir f) [ none ↦ none | some name ↦ some (key_leak name) ],
        )
      ]
    ]
  ]

-- What `cmdShow` prints, or why it fails.
pub data Shown : Type 0 where
  certificate : CertInfo → Shown
  list : Crl → Shown
  no_flag unread no_block unparsable : Shown
  unsupported : String → Shown

-- `cmdShow`
unfoldable pub cmd_show : X509 → String → Option Bytes → Shown
cmd_show x path content = if path == "" then no_flag else elim content [
  | none ↦ unread
  | some raw ↦ elim (x.blocks raw) [
    | List.[] ↦ no_block
    | b ∷ bs ↦
        if b.type == "CERTIFICATE"
        then elim (x.parse_certificate b.bytes) [
          | none ↦ unparsable
          | some c ↦ certificate (describe x c)
        ]
        else if b.type == "X509 CRL"
        then elim (x.parse_crl b.bytes) [ none ↦ unparsable | some crl ↦ list crl ]
        else unsupported b.type
  ]
]
