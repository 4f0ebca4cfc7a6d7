-- ===== src/CaAdmin/Batch.antt =====
-- main.go: `cmdBatchIssue`, which issues a certificate for every request of a directory.
use Prim.Native.String.{String, [], ◌∷◌}
use ttd_elektronik.Prelude.{ℕ, ◌+◌, ◌&◌, Bool, Option, none, some, List, if◌then◌else◌, ◌==◌}
use ttd_elektronik.Store.Types.{Bytes}
use ttd_elektronik.Core.Certutil.{X509}
use ttd_elektronik.Core.Enrollment.{Requests}
use ttd_elektronik.Core.Keys.{Keyring}
use ttd_elektronik.Core.Labpki.{Ca, Pki}
use ttd_elektronik.CaAdmin.Files.{
  Json, Env, Action, pure, or_fail, ◌>>=◌, ◌>>◌, attempt, stop_if, unreadable, missing_flags,
}
use ttd_elektronik.CaAdmin.Keyfile.{Sealing}
use ttd_elektronik.CaAdmin.Castore.{open_store, intermediate}
use ttd_elektronik.CaAdmin.Audit.{log_ceremony}
use ttd_elektronik.CaAdmin.Commands.{IssueFlags, issue_one}

-- `strings.TrimSuffix(s, suffix)` where `strings.HasSuffix(s, suffix)`
abbrev pub strip_suffix : String → String → Option String
strip_suffix [] suffix = if [] == suffix then some [] else none
strip_suffix (c ∷ s) suffix =
    let rest = strip_suffix s suffix in
    if (c ∷ s) == suffix then some [] else elim rest [ none ↦ none | some t ↦ some (c ∷ t) ]

-- What a `.meta.json` sets; the fields that it lacks keep their defaults.
pub record Meta : Type 0 where
  pub account : Option String
  pub device : Option String
  pub cn : Option String

-- An entry of the directory; `meta` is `none` where there is no such file, `raw` where it cannot be
-- read.
pub record Entry : Type 0 where
  pub name : String
  pub is_dir : Bool
  pub meta : Option Meta
  pub raw : Option Bytes

abbrev set_to : Option String → String → String
set_to none s = s
set_to (some t) s = t

-- `certFileName`
abbrev cert_file_name : String → String
cert_file_name stem = stem & ".crt.pem"

-- The flags, by name.
pub record BatchFlags : Type 0 where
  pub in_dir : String
  pub out_dir : String
  pub account : String
  pub org : String
  pub days : ℕ
  pub crl_url : String

abbrev pub flags_for : BatchFlags → String → Meta → IssueFlags
flags_for fl stem m = record {
  csr_path = fl.in_dir & "/" & stem & ".csr.pem";
  account = set_to m.account fl.account;
  device = set_to m.device stem;
  cn = set_to m.cn stem;
  org = fl.org;
  days = fl.days;
  crl_url = fl.crl_url;
  out = fl.out_dir & "/" & cert_file_name stem;
}

abbrev no_meta : Meta
no_meta = record { account = none; device = none; cn = none }

abbrev pub meta_of : Entry → Meta
meta_of e = elim e.meta [ none ↦ no_meta | some m ↦ m ]

-- The request that an entry is, by its stem.
abbrev pub stem_of : Entry → Option String
stem_of e = if e.is_dir then none else strip_suffix e.name ".csr.pem"

module _ (x : X509) (q : Requests) (k : Keyring) (p : Pki) (j : Json) (z : Sealing)
    (env : Env) where
  -- The loop; the count of the certificates issued numbers the draws.
  unfoldable pub issue_each : Ca → BatchFlags → List Entry → ℕ → Action ℕ
  issue_each inter fl List.[] count = pure count
  issue_each inter fl (List.◌∷◌ e es) count = elim (stem_of e) [
    | none ↦ issue_each inter fl es count
    | some stem ↦ do
      raw ← or_fail e.raw unreadable
      issue_one x q k p j z env count inter raw (flags_for fl stem (meta_of e))
      issue_each inter fl es (count + 1)
  ]

  -- `cmdBatchIssue`; `entries` is what `os.ReadDir` gives, `note` the line that is logged.
  unfoldable pub cmd_batch_issue : (ℕ → String) → BatchFlags → Option (List Entry) → Action ℕ
  cmd_batch_issue note fl entries = do
    stop_if (fl.in_dir == "") missing_flags
    open_store env
    inter ← intermediate x k p j z env
    es ← or_fail entries unreadable
    count ← issue_each inter fl es 0
    attempt (log_ceremony x j env "cert.batch-issue" (note count) (List.◌∷◌ "issued.jsonl" List.[]))
    pure count
