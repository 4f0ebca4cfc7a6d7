-- ===== src/CaAdmin/Commands/Published.antt =====
-- `cmdCRL`: the list that it publishes, and its number.
use ttd_elektronik.Prelude.{
  String, false, none, some, Option-cases, List, [], ◌∷◌, ok, get, put, get-put, ◌==◌, ◌≡◌, refl,
  arith, Bool-cases, Result-cases, inl, inr, ◌⊎◌, In, Ranging, sym, ap, ◌∙◌, eq_iff, ==-distinct,
}
use ttd_elektronik.Store.Types.{Bytes}
use ttd_elektronik.Core.Certutil.{X509}
use ttd_elektronik.Core.Enrollment.{Requests}
use ttd_elektronik.Core.Keys.{Keyring}
use ttd_elektronik.Core.Labpki.{Ca, Pki}
use ttd_elektronik.CaAdmin.Files.{Files, Json, Env, write_file}
use ttd_elektronik.CaAdmin.Files.Keeps.{Keeps, Keeps->>=, Keeps->>, write_file-Keeps}
use ttd_elektronik.CaAdmin.Keyfile.{Sealing}
use ttd_elektronik.CaAdmin.Castore.{load_ca, loaded, publish, write_all, public_files}

module _ (x : X509) (q : Requests) (k : Keyring) (p : Pki) (j : Json) (z : Sealing)
    (env : Env) where
  -- Each name is written at most once.
  abbrev Once : String → Bytes → List (String × Bytes) → Type 0
  Once name b ps = (c : Bytes) → In (name, c) ps → c ≡ b

  -- Whether all files are written or not, no other is.
  write_all-other :
      (ps : List (String × Bytes)) (name : String)
      → ((c : Bytes) → In (name, c) ps → ⊥)
      → Keeps name (write_all x k p j z env ps)
  write_all-other [] name never = λ f. refl
  write_all-other ((n, c) ∷ ps) name never =
      let other : (n == name) ≡ false = elim (Bool-cases (n == name)) [
        | inl same ↦ absurd (never c (inl (ap (λ m. (m, c)) (sym ((eq_iff n name).0 same)))))
        | inr differ ↦ differ
      ] in
      Keeps->> name (write_file env n c) (write_all x k p j z env ps)
        (write_file-Keeps name env n c other) (write_all-other ps name (λ c i. never c (inr i)))

  write_all-writes :
      (ps : List (String × Bytes)) (name : String) (b : Bytes) (f f' : Files)
      → write_all x k p j z env ps f ≡ (f', ok tt)
      → Once name b ps
      → (get f.files name ≡ some b) ⊎ In (name, b) ps
      → get f'.files name ≡ some b
  unfolding write_file
  write_all-writes [] name b f f' e once (inl held) = ground arith
  write_all-writes [] name b f f' e once (inr i) = elim i [ ]
  write_all-writes ((n, c) ∷ ps) name b f f' e once w = elim (Bool-cases (env.can_write n)) [
    | inr shut ↦ absurd (ground (arith, shut))
    | inl writes ↦
        let through : env.breaks n ≡ none = ground (arith, writes, Option-cases (env.breaks n)) in
        let mid : Files = record f { files = put f.files n c } in
        let rest : write_all x k p j z env ps mid ≡ (f', ok tt) = ground (arith, writes, through) in
        let on = write_all-writes ps name b mid f' rest (λ d i. once d (inr i)) in
        elim (Bool-cases (n == name)) [
          | inl same ↦
              let same_name = (eq_iff n name).0 same in
              let same_bytes : c ≡ b = once c (inl (ap (λ m. (m, c)) (sym same_name))) in
              on (inl (get-put f.files n name c ∙ rw same (ap some same_bytes)))
          | inr differ ↦ elim w [
            | inl held ↦ on (inl (get-put f.files n name c ∙ rw differ held))
            | inr (inl this) ↦ absurd (ground (arith, differ, eq_iff n name, ap (λ y. y.0) this))
            | inr (inr later) ↦ on (inr later)
          ]
        ]
  ]

  module _ (r : Ranging) (inter : Ca) (pem : Bytes) (f f' : Files)
      (e : publish x k p j z env r inter (some pem) f ≡ (f', ok tt)) where
    publish-files :
        (root_ca : Ca) × (write_all x k p j z env
            (r.range (String × Bytes) (public_files x k p j z env root_ca inter (some pem)))
            f
          ≡ (f', ok tt))
    unfolding publish load_ca
    publish-files = elim (Result-cases (loaded x k p j z env "root" f)) [
      | inr (why, failed) ↦ absurd (ground arith)
      | inl (root_ca, found) ↦ (root_ca, ground arith)
    ]

    pub publish-crl : get f'.files "public/crl.pem" ≡ some pem
    publish-crl =
        let (root_ca, written) = publish-files in
        let all = public_files x k p j z env root_ca inter (some pem) in
        write_all-writes (r.range (String × Bytes) all) "public/crl.pem" pem f f' written
          (λ c i. elim (r.range_only (String × Bytes) ("public/crl.pem", c) all i) [
            | inl a ↦
                absurd
                  (==-distinct "public/crl.pem" "public/root-ca.crt.pem" refl (ap (λ y. y.0) a))
            | inr (inl a) ↦ absurd (
                ==-distinct "public/crl.pem" "public/intermediate-ca.crt.pem" refl
                  (ap (λ y. y.0) a))
            | inr (inr (inl a)) ↦
                absurd (==-distinct "public/crl.pem" "public/ca-chain.pem" refl (ap (λ y. y.0) a))
            | inr (inr (inr (inl a))) ↦ ap (λ y. y.1) a
            | inr (inr (inr (inr none_left))) ↦ elim none_left [ ]
          ])
          (inr (
            r.range_visits (String × Bytes) ("public/crl.pem", pem) all
              (inr (inr (inr (inl refl))))))

  -- Whether it succeeds or not, publishing leaves the ledger alone.
  pub publish-ledger :
      (r : Ranging) (inter : Ca) (pem : Bytes)
      → Keeps "ledger.json" (publish x k p j z env r inter (some pem))
  unfolding publish load_ca
  publish-ledger r inter pem =
      Keeps->>= "ledger.json" (load_ca x k p j z env "root") _ (λ f. refl)
        λ root_ca.
          let all = public_files x k p j z env root_ca inter (some pem) in
          write_all-other (r.range (String × Bytes) all) "ledger.json" λ c i.
            elim (r.range_only (String × Bytes) ("ledger.json", c) all i) [
              | inl a ↦ ==-distinct "ledger.json" "public/root-ca.crt.pem" refl (ap (λ y. y.0) a)
              | inr (inl a) ↦
                  ==-distinct "ledger.json" "public/intermediate-ca.crt.pem" refl (ap (λ y. y.0) a)
              | inr (inr (inl a)) ↦
                  ==-distinct "ledger.json" "public/ca-chain.pem" refl (ap (λ y. y.0) a)
              | inr (inr (inr (inl a))) ↦
                  ==-distinct "ledger.json" "public/crl.pem" refl (ap (λ y. y.0) a)
              | inr (inr (inr (inr none_left))) ↦ none_left
            ]
