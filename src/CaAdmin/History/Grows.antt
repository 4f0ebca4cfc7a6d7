-- ===== src/CaAdmin/History/Grows.antt =====
-- No run of the tool takes a revocation back or counts the number of the list down.
use ttd_elektronik.Prelude.{
  ◌⊎◌, none, true, err, ℕ, ◌+◌, ◌*◌, ◌≤◌, String, some, List, [], ◌∷◌, ◌++◌, Result, ok, get,
  get-put, length, not, ◌==◌, ◌≡◌, refl, arith, Option-cases, Bool-cases, Result-cases, inl, inr,
  Ranging, sym, ap, ◌∙◌, subst, append-nil, append_assoc,
}
use ttd_elektronik.Store.Types.{Bytes}
use ttd_elektronik.Core.Certutil.{X509}
use ttd_elektronik.Core.Enrollment.{Requests}
use ttd_elektronik.Core.Keys.{Keyring}
use ttd_elektronik.Core.Labpki.{Ca, Pki, day, new_crl_detailed}
use ttd_elektronik.CaAdmin.Files.{
  Spares, already_exists, malformed, Files, Failure, Json, ReadsBack, Env, Ledger, Revocation,
  Action, ◌>>◌, attempt, pure, unwritable, write_file, write_output,
}
use ttd_elektronik.CaAdmin.Files.Keeps.{
  >>=-err, >>=-ok, Keeps, Keeps->>, Keeps-if, write_output-Keeps,
}
use ttd_elektronik.CaAdmin.Keyfile.{Sealing}
use ttd_elektronik.CaAdmin.Castore
use ttd_elektronik.CaAdmin.Castore.{
  is_present, opened, decoded, open_store, load_ca, loaded, load_ledger, publish, save_ledger, done,
}
use ttd_elektronik.CaAdmin.Audit.{log_ceremony}
use ttd_elektronik.CaAdmin.Commands.{
  log_init, cmd_init, cmd_revoke, cmd_crl, finish_crl, also_written, all_listed,
}
use ttd_elektronik.CaAdmin.Commands.Revoked.{
  ledger_of, log_ceremony-keeps, cmd_revoke-refused, cmd_revoke-IsRevoked,
}
use ttd_elektronik.CaAdmin.Commands.Published.{publish-ledger}
use ttd_elektronik.CaAdmin.History.{
  Command, init, validate, status, show, issue, batch_issue, revoke, crl, run_command, run_all,
}
use ttd_elektronik.CaAdmin.History.Kept.{cmd_issue-Keeps, cmd_batch_issue-Keeps}

pub record Grows (before after : Ledger) : Type 0 where
  pub more : List Revocation
  pub kept : after.revocations ≡ before.revocations ++ more
  pub counted : before.crl_number ≤ after.crl_number

Grows-refl : (l : Ledger) → Grows l l
Grows-refl l = record { more = []; kept = sym (append-nil l.revocations); counted = omega arith }

Grows-trans : (l m n : Ledger) → Grows l m → Grows m n → Grows l n
Grows-trans l m n a b = record {
  more = a.more ++ b.more;
  kept = b.kept ∙ (ap (λ y. y ++ b.more) a.kept ∙ append_assoc l.revocations a.more b.more);
  counted = omega (arith, a.counted, b.counted);
}

list-cases : {A : Type 0} → (xs : List A) → (xs ≡ []) ⊎ ((y : A) × (ys : List A) × (xs ≡ y ∷ ys))
list-cases [] = inl refl
list-cases (y ∷ ys) = inr (y, ys, refl)

module _ (x : X509) (q : Requests) (k : Keyring) (p : Pki) (j : Json) (z : Sealing) (r : Ranging)
    (reads : ReadsBack j) where
  -- A step from one ledger to the next.
  Leads : Ledger → Files → Type 0
  Leads l f = (l' : Ledger) × (ledger_of j f ≡ ok l') × Grows l l'

  Leads-kept :
      (l : Ledger) (f f' : Files)
      → ledger_of j f ≡ ok l
      → get f'.files "ledger.json" ≡ get f.files "ledger.json"
      → Leads l f'
  unfolding Leads
  Leads-kept l f f' found kept = (l, ap (decoded j) kept ∙ found, Grows-refl l)

  Leads-saved :
      (l next : Ledger) (f' : Files)
      → get f'.files "ledger.json" ≡ some (j.ledger next)
      → Grows l next
      → Leads l f'
  unfolding Leads
  Leads-saved l next f' saved grows =
      (next, ap (decoded j) saved ∙ rw (decoded, reads.ledger next) refl, grows)

  -- A run whose writes of the ledger do not break off, and whose outputs are not the ledger.
  abbrev pub IsCareful : Env → Type 0
  IsCareful env = (env.breaks "ledger.json" ≡ none) × ((p : String) → Spares env p "ledger.json")

  init-same :
      (env : Env) (root_cn inter_cn : String) (l : Ledger) (f : Files)
      → ledger_of j f ≡ ok l
      → (cmd_init x q k p j z env r root_cn inter_cn f).0 ≡ f
  unfolding cmd_init Castore.init get
  init-same env root_cn inter_cn l f found = elim (list-cases f.files) [
    | inl none_there ↦ absurd (ground (arith, none_there))
    | inr (entry, rest, there) ↦
        let making = Castore.init x k p j z env r root_cn inter_cn in
        let here : is_present f ≡ true = rw (there, is_present) refl in
        let refused : making f ≡ (f, err already_exists) = rw (here, Castore.init) refl in
        let stopped =
          >>=-err making (λ _. attempt (log_init x q k p j z env)) f (ap (λ y. y.1) refused) in
        ap (λ y. y.0) stopped ∙ ap (λ y. y.0) refused
  ]

  module _ (env : Env) (careful : IsCareful env) where
    revoke-Leads :
        (l : Ledger) (serial reason : String) (f : Files)
        → ledger_of j f ≡ ok l
        → Leads l (cmd_revoke x q k p j z env serial reason f).0
    unfolding Leads
    revoke-Leads l serial reason f found =
        let f' = (cmd_revoke x q k p j z env serial reason f).0 in
        elim (Result-cases (cmd_revoke x q k p j z env serial reason f).1) [
          | inr (why, refused) ↦
              let same =
                cmd_revoke-refused x q k p j z env reads serial reason f f' why careful.0
                  (ground arith) in
              Leads-kept l f f' found (ap (λ (g : Files). get g.files "ledger.json") same)
          | inl (u, accepted) ↦
              let h =
                cmd_revoke-IsRevoked x q k p j z env reads serial reason f f' (ground arith) in
              let same : h.before ≡ l = ground (arith, h.found, found) in
              (
                _,
                h.left,
                record {
                  more =
                      record {
                        serial = serial;
                        reason = reason;
                        reason_code = h.code;
                        revoked_at = env.now;
                      }
                      ∷ [];
                  kept =
                      ap
                        (λ (m : Ledger).
                          m.revocations
                          ++ record {
                            serial = serial;
                            reason = reason;
                            reason_code = h.code;
                            revoked_at = env.now;
                          }
                            ∷ [])
                        same;
                  counted = ground (arith, same);
                },
              )
        ]

    module _ (note : ℕ → ℕ → String) (days : ℕ) (out : String) where
      -- What follows once the ledger is saved, which it leaves alone.
      abbrev tail : Ledger → Bytes → Action Ledger
      tail next pem = do
        also_written x q k p j z env out pem
        attempt (
            log_ceremony x j env "crl.publish" (note next.crl_number (length next.revocations))
              ("public/crl.pem" ∷ "ledger.json" ∷ []))
        pure next

      tail-Keeps : (next : Ledger) (pem : Bytes) → Keeps "ledger.json" (tail next pem)
      tail-Keeps next pem =
          let text = note next.crl_number (length next.revocations) in
          let sums : List String = "public/crl.pem" ∷ "ledger.json" ∷ [] in
          let logged = attempt (log_ceremony x j env "crl.publish" text sums) in
          Keeps->> "ledger.json" (also_written x q k p j z env out pem) (logged >> pure next)
            (Keeps-if "ledger.json" (not (out == "")) (write_output env out pem) done
              (write_output-Keeps "ledger.json" env out pem (careful.1 out)) (λ f. refl))
            (Keeps->> "ledger.json" logged (pure next)
              (λ f.
                log_ceremony-keeps x q k p j z env reads "crl.publish" text sums "ledger.json" f
                  refl)
              (λ f. refl))

      finish_crl-Leads :
          (l next : Ledger) (inter : Ca) (pem : Bytes) (f : Files)
          → ledger_of j f ≡ ok l
          → Grows l next
          → Leads l (finish_crl x q k p j z env r note days out inter next pem f).0
      unfolding save_ledger write_file
      finish_crl-Leads l next inter pem f found grows =
          let published = publish x k p j z env r inter (some pem) in
          let saved = save_ledger x k p j z env next in
          let f1 = (published f).0 in
          let kept = publish-ledger x q k p j z env r inter pem f in
          let ledger_file = λ (y : Files × Result Failure Ledger). get y.0.files "ledger.json" in
          elim (Result-cases (published f).1) [
            | inr (why, failed) ↦
                Leads-kept l f _ found
                  (ap ledger_file (>>=-err published (λ _. saved >> tail next pem) f failed) ∙ kept)
            | inl (u, went) ↦
                let on = ap ledger_file (>>=-ok published (λ _. saved >> tail next pem) f went) in
                elim (Bool-cases (env.can_write "ledger.json")) [
                  | inr shut ↦ Leads-kept l f _ found (
                      on
                      ∙ (ap ledger_file (
                            >>=-err saved (λ _. tail next pem) f1 {why = unwritable} (rw shut refl))
                          ∙ (rw shut refl ∙ kept)))
                  | inl writes ↦
                      let through = careful.0 in
                      let written : get (saved f1).0.files "ledger.json" ≡ some (j.ledger next) =
                        rw (writes, through, get-put) refl in
                      Leads-saved l next _
                        (on
                          ∙ (ap ledger_file (
                                >>=-ok saved (λ _. tail next pem) f1 {a = tt}
                                  (rw (writes, through) refl))
                              ∙ (tail-Keeps next pem (saved f1).0 ∙ written)))
                        grows
                ]
          ]

      crl-Leads :
          (l : Ledger) (f : Files)
          → ledger_of j f ≡ ok l
          → Leads l (cmd_crl x q k p j z env r note days out f).0
      unfolding cmd_crl open_store load_ledger load_ca
      crl-Leads l f found =
          let next : Ledger = record l { crl_number = l.crl_number + 1 } in
          let grows : Grows l next = record {
            more = [];
            kept = sym (append-nil l.revocations);
            counted = omega arith;
          } in
          let stays = λ (same : (cmd_crl x q k p j z env r note days out f).0 ≡ f).
            subst (Leads l) (sym same) (Leads-kept l f f found refl) in
          elim (Result-cases (opened env f)) [
            | inr (why, shut) ↦ stays (ground arith)
            | inl (u, open_now) ↦ elim (Result-cases (loaded x k p j z env "intermediate" f)) [
              | inr (why, failed) ↦ stays (ground arith)
              | inl (inter, signer) ↦ elim (Option-cases (all_listed l.revocations)) [
                | inl garbled ↦ stays (ground arith)
                | inr (entries, read) ↦
                    elim (Result-cases (
                      new_crl_detailed x k p env.now inter entries (l.crl_number + 1)
                        (days * day))) [
                          | inr (why, failed) ↦ stays (ground arith)
                          | inl (pem, made) ↦
                              let same : (cmd_crl x q k p j z env r note days out f).0
                                  ≡ (finish_crl x q k p j z env r note days out inter next pem
                                      f).0 =
                                ground arith in
                              subst (Leads l) (sym same)
                                (finish_crl-Leads l next inter pem f found grows)
                        ]
              ]
            ]
          ]

  run_command-Leads :
      (env : Env) (careful : IsCareful env) (c : Command) (l : Ledger) (f : Files)
      → ledger_of j f ≡ ok l
      → Leads l (run_command x q k p j z r env c f)
  unfolding run_command
  run_command-Leads env careful (init root_cn inter_cn) l f found =
      Leads-kept l f _ found
        (ap (λ (g : Files). get g.files "ledger.json") (init-same env root_cn inter_cn l f found))
  run_command-Leads env careful (validate path content) l f found = Leads-kept l f f found refl
  run_command-Leads env careful (status read_dir) l f found = Leads-kept l f f found refl
  run_command-Leads env careful (show path content) l f found = Leads-kept l f f found refl
  run_command-Leads env careful (issue fl content) l f found =
      Leads-kept l f _ found (cmd_issue-Keeps x q k p j z env reads careful.1 fl content f)
  run_command-Leads env careful (batch_issue note fl entries) l f found =
      Leads-kept l f _ found
        (cmd_batch_issue-Keeps x q k p j z env reads careful.1 note fl entries f)
  run_command-Leads env careful (revoke serial reason) l f found =
      revoke-Leads env careful l serial reason f found
  run_command-Leads env careful (crl note days out) l f found =
      crl-Leads env careful note days out l f found

  abbrev pub AreCareful : List (Env × Command) → Type 0
  AreCareful [] = Unit
  AreCareful ((env, c) ∷ cs) = IsCareful env × AreCareful cs

  pub run_all-Grows :
      (cs : List (Env × Command)) (l : Ledger) (f : Files)
      → AreCareful cs
      → ledger_of j f ≡ ok l
      → (l' : Ledger) × (ledger_of j (run_all x q k p j z r cs f) ≡ ok l') × Grows l l'
  unfolding run_all Leads
  run_all-Grows [] l f careful found = (l, found, Grows-refl l)
  run_all-Grows ((env, c) ∷ cs) l f (careful, others) found =
      let (m, at, first) = run_command-Leads env careful c l f found in
      let (n, at', rest) = run_all-Grows cs m (run_command x q k p j z r env c f) others at in
      (n, at', Grows-trans l m n first rest)

  -- A write of the ledger that breaks off before its first byte leaves a directory in which no ledger
  -- can be read, where an empty file is none.
  pub save_ledger-broken :
      (env : Env) (l : Ledger) (f : Files)
      → j.read_ledger [] ≡ none
      → env.can_write "ledger.json" ≡ true
      → env.breaks "ledger.json" ≡ some 0
      → ledger_of j (save_ledger x k p j z env l f).0 ≡ err malformed
  unfolding save_ledger write_file
  save_ledger-broken env l f empty writes broken =
      rw (writes, broken, get-put) (rw (decoded, empty) refl)
