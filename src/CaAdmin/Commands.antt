-- ===== src/CaAdmin/Commands.antt =====
-- main.go: the commands that change the CA directory. A command takes its flags, with their defaults
-- filled in, and the contents of the files that the flags name, `none` where they cannot be read.
pub mod Revoked
pub mod Published
pub mod Listed
pub mod Refines
pub mod Unsaved
use Prim.Native.String.{[]}
use ttd_elektronik.Prelude.{
  ℕ, ◌+◌, ◌*◌, String, ◌&◌, Bool, true, false, not, ◌&&◌, ◌||◌, Option, none, some, List, ◌∷◌, ◌++◌,
  Result, ok, err, Dict, Ranging, if◌then◌else◌, ◌==◌, map, length,
}
use ttd_elektronik.Store.Types.{Bytes}
use ttd_elektronik.Core.Certutil
use ttd_elektronik.Core.Certutil.{X509, fingerprint_sha256}
use ttd_elektronik.Core.Enrollment.{Requests, CsrInfo, Request, parse_and_validate_csr}
use ttd_elektronik.Core.Keys.{Keyring}
use ttd_elektronik.Core.Labpki.{
  Ca, Pki, Name, Serial, RevokedEntry, uncreated, DeviceCertOptions, day, issue_device_cert,
  new_crl_detailed, cert_pem, chain_pem,
}
use ttd_elektronik.CaAdmin.Serials.{set_string, cert_serial_hex}
use ttd_elektronik.CaAdmin.Files.{
  Files, Json, Env, Ledger, Revocation, IssuedRecord, Failure, Action, pure, fail, or_fail, ◌>>=◌,
  ◌>>◌, attempt, stop_if, read_file, write_output, unreadable, ca_failed, csr_rejected,
  missing_flags, bad_serial, unknown_reason, already_revoked,
}
use ttd_elektronik.CaAdmin.Keyfile.{Sealing}
use ttd_elektronik.CaAdmin.Castore.{
  lift, done, draw, open_store, encrypted, intermediate, load_ledger, save_ledger, append_issued,
  publish, init,
}
use ttd_elektronik.CaAdmin.Audit.{log_ceremony}

-- `pkixName`
abbrev pkix_name : String → String → Name
pkix_name cn org = record {
  common_name = cn;
  organization = if not (org == "") then org ∷ List.[] else List.[];
  organizational_unit = List.[];
}

-- `reasonCodes`
unfoldable pub reason_code : String → Option ℕ
reason_code s =
    if s == "unspecified"
    then some 0
    else if s == "keyCompromise"
    then some 1
    else if s == "cACompromise"
    then some 2
    else if s == "affiliationChanged"
    then some 3
    else if s == "superseded"
    then some 4
    else if s == "cessationOfOperation"
    then some 5
    else if s == "certificateHold"
    then some 6
    else if s == "privilegeWithdrawn"
    then some 9
    else none

pub record IssueFlags : Type 0 where
  pub csr_path : String
  pub account : String
  pub device : String
  pub cn : String
  pub org : String
  pub days : ℕ
  pub crl_url : String
  pub out : String

-- The loop of `cmdRevoke` over the recorded revocations.
abbrev pub is_recorded : String → List Revocation → Bool
is_recorded serial List.[] = false
is_recorded serial (r ∷ rs) = if r.serial == serial then true else is_recorded serial rs

abbrev pub listed : Revocation → Serial → RevokedEntry
listed r n = record { serial = n; reason = r.reason_code; at = r.revoked_at }

-- The entries of the list; a serial that does not parse is nil, which crypto/x509 refuses.
abbrev pub all_listed : List Revocation → Option (List RevokedEntry)
all_listed List.[] = some List.[]
all_listed (r ∷ rs) =
    let rest = all_listed rs in
    elim (set_string r.serial) [
      | none ↦ none
      | some n ↦ elim rest [ none ↦ none | some es ↦ some (listed r n ∷ es) ]
    ]

module _ (x : X509) (q : Requests) (k : Keyring) (p : Pki) (j : Json) (z : Sealing)
    (env : Env) where
  -- `open`
  abbrev open_dir : Action Unit
  open_dir = open_store env

  abbrev key_files : Files → List String
  key_files f =
      if encrypted f
      then "root/key.pem.enc" ∷ "intermediate/key.pem.enc" ∷ List.[]
      else "root/key.pem" ∷ "intermediate/key.pem" ∷ List.[]

  abbrev pub log_init : Action Unit
  log_init f =
      log_ceremony x j env "ca.init" "root+intermediate generated"
        (key_files f
          ++ "root/cert.pem" ∷ "intermediate/cert.pem" ∷ "public/root-ca.crt.pem"
            ∷ "public/intermediate-ca.crt.pem" ∷ "public/ca-chain.pem" ∷ List.[])
        f

  -- `cmdInit`
  unfoldable pub cmd_init : Ranging → String → String → Action Unit
  cmd_init r root_cn inter_cn = init x k p j z env r root_cn inter_cn >> attempt log_init

  -- `cmdValidate`
  unfoldable pub cmd_validate : String → Option Bytes → Result Failure CsrInfo
  cmd_validate path content = if path == "" then err missing_flags else elim content [
    | none ↦ err unreadable
    | some raw ↦ elim (parse_and_validate_csr x q raw) [
      | err e ↦ err (csr_rejected e)
      | ok (csr, info) ↦ ok info
    ]
  ]

  abbrev pub issued_record : CsrInfo → IssueFlags → Certutil.Certificate → IssuedRecord
  issued_record info fl cert = record {
    serial = cert_serial_hex cert.serial;
    subject = cert.subject;
    account = fl.account;
    device_label = fl.device;
    fingerprint = fingerprint_sha256 x cert;
    not_after = cert.not_after;
    issued_at = env.now;
    csr_fp = info.public_key_fp;
  }

  -- What follows once the certificate is signed.
  unfoldable pub record_issued :
      Ca → CsrInfo → IssueFlags → Certutil.Certificate → Action IssuedRecord
  record_issued inter info fl cert = do
    write_output env fl.out (cert_pem x k p cert)
    write_output env (fl.out & ".fullchain.pem") (chain_pem x k p (cert ∷ inter.cert ∷ List.[]))
    append_issued x k p j z env (issued_record info fl cert)
    pure (issued_record info fl cert)

  abbrev pub cert_options : IssueFlags → DeviceCertOptions
  cert_options fl = record {
    subject = pkix_name fl.cn fl.org;
    validity = fl.days * day;
    crl_url = fl.crl_url;
    not_before = 0;
  }

  -- `issueOne`; `n` numbers its draws.
  unfoldable pub issue_one : ℕ → Ca → Bytes → IssueFlags → Action IssuedRecord
  issue_one n inter csr_pem fl = do
    (csr, info) ← lift csr_rejected (parse_and_validate_csr x q csr_pem)
    d ← draw env n
    cert ← lift ca_failed (issue_device_cert x k p d inter csr (cert_options fl))
    record_issued inter info fl cert

  -- `cmdIssue`
  unfoldable pub cmd_issue : IssueFlags → Option Bytes → Action IssuedRecord
  cmd_issue fl content = do
    stop_if (fl.csr_path == "" || fl.account == "" || fl.device == "" || fl.cn == "") missing_flags
    open_dir
    inter ← intermediate x k p j z env
    raw ← or_fail content unreadable
    rec ← issue_one 0 inter raw fl
    attempt (log_ceremony x j env "cert.issue" "1 certificate" ("issued.jsonl" ∷ List.[]))
    pure rec

  -- `cmdRevoke`
  unfoldable pub cmd_revoke : String → String → Action Unit
  cmd_revoke serial reason = do
    stop_if (serial == "") missing_flags
    n ← or_fail (set_string serial) bad_serial
    code ← or_fail (reason_code reason) unknown_reason
    open_dir
    l ← load_ledger x k p j z env
    stop_if (is_recorded serial l.revocations) already_revoked
    save_ledger x k p j z env (record l {
      revocations =
          l.revocations
          ++ (record { serial = serial; reason = reason; reason_code = code; revoked_at = env.now })
            ∷ List.[];
    })
    attempt (log_ceremony x j env "cert.revoke" (serial & " " & reason) ("ledger.json" ∷ List.[]))

  abbrev pub also_written : String → Bytes → Action Unit
  also_written out pem = if not (out == "") then write_output env out pem else done

  module _ (r : Ranging) (note : ℕ → ℕ → String) (days : ℕ) (out : String) where
    -- What follows once the list is signed.
    abbrev pub finish_crl : Ca → Ledger → Bytes → Action Ledger
    finish_crl inter next pem = do
      publish x k p j z env r inter (some pem)
      save_ledger x k p j z env next
      also_written out pem
      attempt (
          log_ceremony x j env "crl.publish" (note next.crl_number (length next.revocations))
            ("public/crl.pem" ∷ "ledger.json" ∷ List.[]))
      pure next

    -- `cmdCRL`; `note` is the line that it logs, of the number and the count.
    unfoldable pub cmd_crl : Action Ledger
    cmd_crl = do
      open_dir
      l ← load_ledger x k p j z env
      inter ← intermediate x k p j z env
      let next : Ledger = record l { crl_number = l.crl_number + 1 }
      entries ← or_fail (all_listed l.revocations) (ca_failed uncreated)
      pem ←
          lift ca_failed (new_crl_detailed x k p env.now inter entries next.crl_number (days * day))
      finish_crl inter next pem
