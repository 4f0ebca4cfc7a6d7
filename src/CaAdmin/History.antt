-- ===== src/CaAdmin/History.antt =====
-- main.go: `main` as a step function over its commands on a CA directory; `backup` and `restore` are not
-- modelled.
pub mod Kept
pub mod Grows
use ttd_elektronik.Prelude.{
  ℕ, ◌+◌, ◌≤◌, String, true, false, Option, none, some, List, [], ◌∷◌, ◌++◌, Result, ok, err, get,
  ◌==◌, ◌≡◌, refl, arith, Dict, Option-cases, Bool-cases, Result-cases, inl, inr, ◌⊎◌, Ranging, sym,
  ap, ◌∙◌, get-put, ◌&◌, append-nil, append_assoc,
}
use ttd_elektronik.Store.Types.{Bytes}
use ttd_elektronik.Core.Certutil.{X509, Certificate}
use ttd_elektronik.Core.Enrollment.{CsrInfo, Request, Requests, parse_and_validate_csr}
use ttd_elektronik.Core.Keys.{Keyring}
use ttd_elektronik.Core.Labpki.{Ca, Draw, Pki, issue_device_cert, cert_pem, chain_pem}
use ttd_elektronik.CaAdmin.Files.{
  Files, Failure, IssuedRecord, pure, or_fail, stop_if, ca_failed, csr_rejected, unreadable, Json,
  ReadsBack, Env, Ledger, Revocation, Action, ◌>>=◌, ◌>>◌, append_line, write_output,
}
use ttd_elektronik.CaAdmin.Files.Keeps.{
  Keeps, Keeps->>=, Keeps->>, Keeps-or_fail, append_line-Keeps, write_output-Keeps,
}
use ttd_elektronik.CaAdmin.Keyfile.{Sealing}
use ttd_elektronik.CaAdmin.Castore.{
  loaded, lift, draw, open_store, append_issued, load_ca, load_ledger, publish, save_ledger,
}
use ttd_elektronik.CaAdmin.Commands.{
  IssueFlags, cmd_init, cmd_issue, cmd_revoke, cmd_crl, issue_one, record_issued, issued_record,
  cert_options, finish_crl, also_written,
}
use ttd_elektronik.CaAdmin.Commands.Revoked.{
  ledger_of, log_ceremony-keeps, cmd_revoke-refused, cmd_revoke-IsRevoked,
}
use ttd_elektronik.CaAdmin.Batch.{
  Entry, BatchFlags, cmd_batch_issue, issue_each, stem_of, flags_for, meta_of,
}

pub data Command : Type 0 where
  init : String → String → Command
  validate : String → Option Bytes → Command
  status : (Dict Bytes → Dict Bytes) → Command
  show : String → Option Bytes → Command
  issue : IssueFlags → Option Bytes → Command
  batch_issue : (ℕ → String) → BatchFlags → Option (List Entry) → Command
  revoke : String → String → Command
  crl : (ℕ → ℕ → String) → ℕ → String → Command

module _ (x : X509) (q : Requests) (k : Keyring) (p : Pki) (j : Json) (z : Sealing)
    (r : Ranging) where
  -- One run of the tool. `cmd_validate`, `cmd_status` and `cmd_show` write no file.
  unfoldable pub run_command : Env → Command → Files → Files
  run_command env (init root_cn inter_cn) f = (cmd_init x q k p j z env r root_cn inter_cn f).0
  run_command env (validate path content) f = f
  run_command env (status read_dir) f = f
  run_command env (show path content) f = f
  run_command env (issue fl content) f = (cmd_issue x q k p j z env fl content f).0
  run_command env (batch_issue note fl entries) f =
      (cmd_batch_issue x q k p j z env note fl entries f).0
  run_command env (revoke serial reason) f = (cmd_revoke x q k p j z env serial reason f).0
  run_command env (crl note days out) f = (cmd_crl x q k p j z env r note days out f).0

  unfoldable pub run_all : List (Env × Command) → Files → Files
  unfolding run_command
  run_all [] f = f
  run_all ((env, c) ∷ cs) f = run_all cs (run_command env c f)
