-- ===== src/CaAdmin/Commands/Revoked.antt =====
-- `cmdRevoke`: what it adds to the ledger, and that it changes nothing else of it.
use ttd_elektronik.Prelude.{
  ℕ, String, false, none, some, List, [], ◌∷◌, ◌++◌, ◌&◌, Result, ok, err, get, put, get-put, ◌==◌,
  ◌≡◌, refl, arith, Option-cases, Bool-cases, Result-cases, inl, inr,
}
use ttd_elektronik.Core.Certutil.{X509}
use ttd_elektronik.Core.Enrollment.{Requests}
use ttd_elektronik.Core.Keys.{Keyring}
use ttd_elektronik.Core.Labpki.{Pki, Serial}
use ttd_elektronik.CaAdmin.Serials.{set_string}
use ttd_elektronik.CaAdmin.Files.{Files, Json, ReadsBack, Env, Ledger, Failure, write_file}
use ttd_elektronik.CaAdmin.Files.Keeps.{Keeps, append_line-Keeps, write_file-Keeps}
use ttd_elektronik.CaAdmin.Keyfile.{Sealing}
use ttd_elektronik.CaAdmin.Castore.{open_store, decoded, load_ledger, save_ledger}
use ttd_elektronik.CaAdmin.Audit.{log_ceremony}
use ttd_elektronik.CaAdmin.Commands.{reason_code, is_recorded, cmd_revoke}

-- The ledger that a command finds.
abbrev pub ledger_of : Json → Files → Result Failure Ledger
ledger_of j f = decoded j (get f.files "ledger.json")

module _ (x : X509) (q : Requests) (k : Keyring) (p : Pki) (j : Json) (z : Sealing) (env : Env)
    (reads : ReadsBack j) where
  -- A ceremony is logged in its own file.
  pub log_ceremony-keeps :
      (action note : String) (artifacts : List String) (path : String) (f : Files)
      → ("ceremony.jsonl" == path) ≡ false
      → get (log_ceremony x j env action note artifacts f).0.files path ≡ get f.files path
  unfolding log_ceremony
  log_ceremony-keeps action note artifacts path f other =
      append_line-Keeps path env "ceremony.jsonl" _ other f

  pub ledger_of-save_ledger :
      (l : Ledger) (f f' : Files)
      → save_ledger x k p j z env l f ≡ (f', ok tt)
      → ledger_of j f' ≡ ok l
  unfolding save_ledger write_file
  ledger_of-save_ledger l f f' e = elim (Bool-cases (env.can_write "ledger.json")) [
    | inr shut ↦ absurd (ground (arith, shut))
    | inl writes ↦ elim (Option-cases (env.breaks "ledger.json")) [
      | inr (n, broken) ↦ absurd (ground (arith, writes, broken))
      | inl through ↦
          let saved : put f.files "ledger.json" (j.ledger l) ≡ f'.files =
            ground (arith, writes, through) in
          rw (← saved, get-put, reads.ledger l) refl
    ]
  ]

  abbrev recorded : String → String → ℕ → Ledger → Ledger
  recorded serial reason code l = record l {
    revocations =
        l.revocations
        ++ (record { serial = serial; reason = reason; reason_code = code; revoked_at = env.now })
          ∷ [];
  }

  -- A command that is refused leaves every file as it was, if no write of the ledger breaks off.
  pub cmd_revoke-refused :
      (serial reason : String) (f f' : Files) (why : Failure)
      → env.breaks "ledger.json" ≡ none
      → cmd_revoke x q k p j z env serial reason f ≡ (f', err why)
      → f' ≡ f
  unfolding cmd_revoke open_store load_ledger save_ledger write_file
  cmd_revoke-refused serial reason f f' why whole e = ground (arith, whole)

  pub save_ledger-only :
      (l : Ledger) (path : String)
      → ("ledger.json" == path) ≡ false
      → Keeps path (save_ledger x k p j z env l)
  unfolding save_ledger
  save_ledger-only l path = write_file-Keeps path env "ledger.json" (j.ledger l)

  -- What a revocation that is accepted has found and done.
  pub record IsRevoked (serial reason : String) (f f' : Files) : Type 0 where
    pub number : Serial
    pub code : ℕ
    pub before : Ledger
    pub reads_serial : set_string serial ≡ some number
    pub reads_reason : reason_code reason ≡ some code
    pub found : ledger_of j f ≡ ok before
    pub fresh : is_recorded serial before.revocations ≡ false
    pub left : ledger_of j f' ≡ ok (recorded serial reason code before)

  -- A revocation that is accepted has a hexadecimal serial which the ledger does not have yet and a
  -- reason that is known, and adds exactly it, as the last one, to the ledger.
  pub cmd_revoke-IsRevoked :
      (serial reason : String) (f f' : Files)
      → cmd_revoke x q k p j z env serial reason f ≡ (f', ok tt)
      → IsRevoked serial reason f f'
  unfolding cmd_revoke open_store load_ledger
  cmd_revoke-IsRevoked serial reason f f' e = elim (Option-cases (set_string serial)) [
    | inl no_serial ↦ absurd (ground arith)
    | inr (number, reads_serial) ↦ elim (Option-cases (reason_code reason)) [
      | inl no_reason ↦ absurd (ground arith)
      | inr (code, reads_reason) ↦ elim (Result-cases (ledger_of j f)) [
        | inr (why, failed) ↦ absurd (ground arith)
        | inl (l, found) ↦
            let l' = recorded serial reason code l in
            elim (Result-cases (save_ledger x k p j z env l' f).1) [
              | inr (why, failed) ↦ absurd (ground arith)
              | inl (u, saved) ↦
                  let mid = (save_ledger x k p j z env l' f).0 in
                  let note = serial & " " & reason in
                  let ended : (log_ceremony x j env "cert.revoke" note ("ledger.json" ∷ []) mid).0
                      ≡ f' =
                    ground arith in
                  let kept =
                    log_ceremony-keeps "cert.revoke" note ("ledger.json" ∷ []) "ledger.json" mid
                      refl in
                  record {
                    number = number;
                    code = code;
                    before = l;
                    reads_serial = reads_serial;
                    reads_reason = reads_reason;
                    found = found;
                    fresh = ground (arith, Bool-cases (is_recorded serial l.revocations));
                    left = rw (← ended, kept) (ledger_of-save_ledger l' f mid (ground arith));
                  }
            ]
      ]
    ]
  ]
