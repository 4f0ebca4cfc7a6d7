-- ===== src/CaAdmin/Commands/Listed.antt =====
-- `cmdCRL`, from the ledger to the published list.
use ttd_elektronik.Prelude.{
  ℕ, ◌+◌, ◌*◌, String, false, not, some, List, [], ◌∷◌, ok, get, ◌==◌, ◌≡◌, ◌↔◌, refl, arith,
  Option-cases, Result-cases, inl, inr, In, Ranging, sym, ap, ◌∙◌, length, subst,
}
use ttd_elektronik.Store.Types.{Bytes}
use ttd_elektronik.Core.Certutil.{X509}
use ttd_elektronik.Core.Enrollment.{Requests}
use ttd_elektronik.Core.Keys.{Keyring}
use ttd_elektronik.Core.Labpki.{Ca, Pki, RevokedEntry, plain, day, new_crl_detailed}
use ttd_elektronik.Core.Labpki.Issued.{Names}
use ttd_elektronik.CaAdmin.Serials.{set_string}
use ttd_elektronik.CaAdmin.Files.{
  Files, Json, ReadsBack, Env, Ledger, Revocation, write_output, Spares,
}
use ttd_elektronik.CaAdmin.Files.Keeps.{Keeps, Keeps-if, write_output-Keeps}
use ttd_elektronik.CaAdmin.Keyfile.{Sealing}
use ttd_elektronik.CaAdmin.Castore.{
  open_store, load_ledger, load_ca, loaded, save_ledger, publish, done,
}
use ttd_elektronik.CaAdmin.Audit.{log_ceremony}
use ttd_elektronik.CaAdmin.Commands.{all_listed, listed, also_written, finish_crl, cmd_crl}
use ttd_elektronik.CaAdmin.Commands.Revoked.{
  ledger_of, ledger_of-save_ledger, save_ledger-only, log_ceremony-keeps,
}
use ttd_elektronik.CaAdmin.Commands.Published.{publish-crl}

-- The ledger has revoked the serial `n`, whichever way it is written.
abbrev pub HasRevoked : List Revocation → ℕ → Type 0
HasRevoked rs n = (r : Revocation) × In r rs × (set_string r.serial ≡ some (plain n))

pub all_listed-HasRevoked :
    (rs : List Revocation) (es : List RevokedEntry) (n : ℕ)
    → all_listed rs ≡ some es
    → HasRevoked rs n ↔ Names es n
all_listed-HasRevoked [] es n e =
    let empty : [] ≡ es = ground arith in
    (λ (r, i, h). elim i [ ], λ (y, i, h). elim (subst (λ l. In y l) (sym empty) i) [ ])
all_listed-HasRevoked (r ∷ rs) es n e = elim (Option-cases (set_string r.serial)) [
  | inl bad ↦ absurd (ground arith)
  | inr (m, good) ↦ elim (Option-cases (all_listed rs)) [
    | inl bad ↦ absurd (ground arith)
    | inr (fs, rest) ↦
        let whole : listed r m ∷ fs ≡ es = ground arith in
        let later = all_listed-HasRevoked rs fs n rest in
        (
          λ (s, i, h). elim i [
            | inl same ↦
                let number : m ≡ plain n = ground (arith, ap (λ y. y.serial) same) in
                (listed r m, subst (λ l. In (listed r m) l) whole (inl refl), number)
            | inr i ↦
                let (y, i', h') = later.0 (s, i, h) in (y, subst (λ l. In y l) whole (inr i'), h')
          ],
          λ (y, i, h). elim (subst (λ l. In y l) (sym whole) i) [
            | inl same ↦ (r, inl refl, good ∙ ap some (ap (λ y. y.serial) (sym same) ∙ h))
            | inr i' ↦ let (s, i'', h') = later.1 (y, i', h) in (s, inr i'', h')
          ],
        )
  ]
]

module _ (x : X509) (q : Requests) (k : Keyring) (p : Pki) (j : Json) (z : Sealing) (env : Env)
    (reads : ReadsBack j) (r : Ranging) (note : ℕ → ℕ → String) (days : ℕ) (out : String) where
  -- What a list that is published was made from, and what is left behind.
  pub record IsPublished (f f' : Files) (after : Ledger) : Type 0 where
    pub before : Ledger
    pub entries : List RevokedEntry
    pub inter : Ca
    pub pem : Bytes
    pub found : ledger_of j f ≡ ok before
    pub next : after ≡ record before { crl_number = before.crl_number + 1 }
    pub saved : ledger_of j f' ≡ ok after
    pub read : all_listed before.revocations ≡ some entries
    pub signer : loaded x k p j z env "intermediate" f ≡ ok inter
    pub made :
        new_crl_detailed x k p env.now inter entries (before.crl_number + 1) (days * day) ≡ ok pem
    pub published : get f'.files "public/crl.pem" ≡ some pem

  also_written-Keeps :
      (path : String) (pem : Bytes)
      → Spares env out path
      → Keeps path (also_written x q k p j z env out pem)
  also_written-Keeps path pem spares =
      Keeps-if path (not (out == "")) (write_output env out pem) done
        (write_output-Keeps path env out pem spares) (λ f. refl)

  finish_crl-files :
      (inter : Ca) (next after : Ledger) (pem : Bytes) (f f' : Files)
      → Spares env out "ledger.json"
      → Spares env out "public/crl.pem"
      → finish_crl x q k p j z env r note days out inter next pem f ≡ (f', ok after)
      → (after ≡ next) × (ledger_of j f' ≡ ok next) × (get f'.files "public/crl.pem" ≡ some pem)
  finish_crl-files inter next after pem f f' apart apart' e =
      let f1 = (publish x k p j z env r inter (some pem) f).0 in
      let f2 = (save_ledger x k p j z env next f1).0 in
      let f3 = (also_written x q k p j z env out pem f2).0 in
      let text = note next.crl_number (length next.revocations) in
      let sums : List String = "public/crl.pem" ∷ "ledger.json" ∷ [] in
      elim (Result-cases (publish x k p j z env r inter (some pem) f).1) [
        | inr (why, failed) ↦ absurd (ground arith)
        | inl (u, published) ↦ elim (Result-cases (save_ledger x k p j z env next f1).1) [
          | inr (why, failed) ↦ absurd (ground arith)
          | inl (v, saved) ↦ elim (Result-cases (also_written x q k p j z env out pem f2).1) [
            | inr (why, failed) ↦ absurd (ground arith)
            | inl (w, wrote) ↦
                let ended : (log_ceremony x j env "crl.publish" text sums f3).0 ≡ f' =
                  ground arith in
                let kept =
                  λ (path : String) (other : ("ceremony.jsonl" == path) ≡ false)
                      (spares : Spares env out path).
                    log_ceremony-keeps x q k p j z env reads "crl.publish" text sums path f3 other
                    ∙ also_written-Keeps path pem spares f2 in
                (
                  ground arith,
                  rw (← ended, kept "ledger.json" refl apart)
                      (ledger_of-save_ledger x q k p j z env reads next f1 f2 (ground arith)),
                  rw (← ended, kept "public/crl.pem" refl apart')
                      (save_ledger-only x q k p j z env reads next "public/crl.pem" refl f1
                        ∙ publish-crl x q k p j z env r inter pem f f1 (ground arith)),
                )
          ]
        ]
      ]

  pub cmd_crl-IsPublished :
      (f f' : Files) (after : Ledger)
      → Spares env out "ledger.json"
      → Spares env out "public/crl.pem"
      → cmd_crl x q k p j z env r note days out f ≡ (f', ok after)
      → IsPublished f f' after
  unfolding cmd_crl open_store load_ledger load_ca
  cmd_crl-IsPublished f f' after apart apart' e = elim (Result-cases (ledger_of j f)) [
    | inr (why, failed) ↦ absurd (ground arith)
    | inl (l, found) ↦ elim (Result-cases (loaded x k p j z env "intermediate" f)) [
      | inr (why, failed) ↦ absurd (ground arith)
      | inl (inter, signer) ↦ elim (Option-cases (all_listed l.revocations)) [
        | inl garbled ↦ absurd (ground arith)
        | inr (entries, read) ↦
            elim (Result-cases
              (new_crl_detailed x k p env.now inter entries (l.crl_number + 1) (days * day))) [
                | inr (why, failed) ↦ absurd (ground arith)
                | inl (pem, made) ↦
                    let next : Ledger = record l { crl_number = l.crl_number + 1 } in
                    let (same, saved, published) =
                      finish_crl-files inter next after pem f f' apart apart' (ground arith) in
                    record {
                      before = l;
                      entries = entries;
                      inter = inter;
                      pem = pem;
                      found = found;
                      next = same;
                      saved = rw same saved;
                      read = read;
                      signer = signer;
                      made = made;
                      published = published;
                    }
              ]
      ]
    ]
  ]
