-- ===== src/CaAdmin/Commands/Refines.antt =====
-- The published list against what the ledger promises: the set of the serials that are revoked.
use ttd_elektronik.Prelude.{
  ℕ, ◌+◌, String, true, some, List, [], ◌∷◌, ◌++◌, ok, get, ◌≡◌, ◌↔◌, refl, arith, Result-cases,
  inl, inr, In, Ranging, sym, subst,
}
use ttd_elektronik.Store.Types.{Bytes}
use ttd_elektronik.Core.Certutil.{X509, Certificate, CrlStatus, validate_crl}
use ttd_elektronik.Core.Certutil.Revocation.{validate_crl-exact}
use ttd_elektronik.Core.Enrollment.{Requests}
use ttd_elektronik.Core.Keys.{Keyring}
use ttd_elektronik.Core.Labpki.{Ca, Pki}
use ttd_elektronik.Core.Labpki.Issued.{IsFaithful, IsPaired}
use ttd_elektronik.Core.Labpki.Listed.{new_crl_detailed-Lists}
use ttd_elektronik.CaAdmin.Serials.{set_string-hex, cert_serial_hex}
use ttd_elektronik.CaAdmin.Files.{Files, Json, ReadsBack, Env, Ledger, Revocation, Spares}
use ttd_elektronik.CaAdmin.Keyfile.{Sealing}
use ttd_elektronik.CaAdmin.Castore.{loaded}
use ttd_elektronik.CaAdmin.Commands.{cmd_revoke, cmd_crl}
use ttd_elektronik.CaAdmin.Commands.Revoked.{ledger_of, cmd_revoke-IsRevoked}
use ttd_elektronik.CaAdmin.Commands.Listed.{HasRevoked, all_listed-HasRevoked, cmd_crl-IsPublished}

module _ (x : X509) (q : Requests) (k : Keyring) (p : Pki) (j : Json) (z : Sealing)
    (reads : ReadsBack j) (faithful : IsFaithful x k p) where
  -- The list in `f`, read by a client that has the intermediate certificate, revokes a certificate
  -- exactly if its serial is in the set.
  pub record Shows (env : Env) (f f' : Files) (revoked : ℕ → Type 0) : Type 0 where
    pub pem : Bytes
    pub inter : Ca
    pub published : get f'.files "public/crl.pem" ≡ some pem
    pub signer : loaded x k p j z env "intermediate" f ≡ ok inter
    pub shown :
        (target : Certificate) (now : ℕ)
        → (st : CrlStatus) × (validate_crl x pem (some inter.cert) target now ≡ ok st)
          × ((st.revoked ≡ true) ↔ revoked target.serial)

  -- Where the key of the intermediate authority is the one that its certificate certifies, and the
  -- further output names neither the ledger nor the published list, publishing the list counts its
  -- number up by one and forgets no revocation; and what any client then reads as revoked, against the certificate of the intermediate authority, is exactly the set
  -- of the serials in the ledger, however they are written there.
  pub cmd_crl-refines :
      (env : Env) (r : Ranging) (note : ℕ → ℕ → String) (days : ℕ) (out : String) (f f' : Files)
      (after : Ledger)
      → ((inter : Ca) → loaded x k p j z env "intermediate" f ≡ ok inter → IsPaired k inter)
      → Spares env out "ledger.json"
      → Spares env out "public/crl.pem"
      → cmd_crl x q k p j z env r note days out f ≡ (f', ok after)
      → (before : Ledger) × (ledger_of j f ≡ ok before)
        × (ledger_of j f' ≡ ok after)
        × (after ≡ record before { crl_number = before.crl_number + 1 })
        × Shows env f f' (HasRevoked before.revocations)
  unfolding validate_crl
  cmd_crl-refines env r note days out f f' after pairs apart apart' e =
      let h = cmd_crl-IsPublished x q k p j z env reads r note days out f f' after apart apart' e in
      let (crl, read, signed, listed) =
        new_crl_detailed-Lists x k p env.now faithful h.inter h.entries _ _ h.pem
          (pairs h.inter h.signer) h.made in
      (
        h.before,
        h.found,
        h.saved,
        h.next,
        record {
          pem = h.pem;
          inter = h.inter;
          published = h.published;
          signer = h.signer;
          shown = λ target now.
              elim (Result-cases (validate_crl x h.pem (some h.inter.cert) target now)) [
                | inr (why, failed) ↦ absurd (ground (arith, read, signed))
                | inl (st, accepted) ↦
                    let exact =
                      (validate_crl-exact x h.pem (some h.inter.cert) target now crl read st
                        accepted).0 in
                    let same =
                      all_listed-HasRevoked h.before.revocations h.entries target.serial h.read in
                    (
                      st,
                      accepted,
                      (
                        λ yes'. same.1 ((listed target.serial).0 (exact.0 yes')),
                        λ has. exact.1 ((listed target.serial).1 (same.0 has)),
                      ),
                    )
              ];
        },
      )

  In-last : (rs : List Revocation) (r : Revocation) → In r (rs ++ r ∷ [])
  In-last [] r = inl refl
  In-last (s ∷ rs) r = inr (In-last rs r)

  -- After a certificate's serial, as the tool prints it, is revoked and a list is then published, by an
  -- intermediate authority with the key of its certificate and without an output over the ledger or the
  -- list, each client that reads the list finds the certificate revoked.
  pub cmd_crl-cmd_revoke :
      (env later : Env) (reason : String) (target : Certificate) (r : Ranging)
      (note : ℕ → ℕ → String) (days : ℕ) (out : String) (f g h : Files) (after : Ledger)
      → cmd_revoke x q k p j z env (cert_serial_hex target.serial) reason f ≡ (g, ok tt)
      → ((inter : Ca) → loaded x k p j z later "intermediate" g ≡ ok inter → IsPaired k inter)
      → Spares later out "ledger.json"
      → Spares later out "public/crl.pem"
      → cmd_crl x q k p j z later r note days out g ≡ (h, ok after)
      → (pem : Bytes) × (inter : Ca) × (get h.files "public/crl.pem" ≡ some pem)
        × (loaded x k p j z later "intermediate" g ≡ ok inter)
        × ((now : ℕ)
            → (st : CrlStatus) × (validate_crl x pem (some inter.cert) target now ≡ ok st)
              × (st.revoked ≡ true))
  cmd_crl-cmd_revoke env later reason target r note days out f g h after e pairs apart apart' e' =
      let done = cmd_revoke-IsRevoked x q k p j z env reads _ reason f g e in
      let (before, found, saved, next, shows) =
        cmd_crl-refines later r note days out g h after pairs apart apart' e' in
      let last : Revocation = record {
        serial = cert_serial_hex target.serial;
        reason = reason;
        reason_code = done.code;
        revoked_at = env.now;
      } in
      let same : before.revocations ≡ done.before.revocations ++ last ∷ [] =
        ground (arith, done.left, found) in
      let has : HasRevoked before.revocations target.serial = (
        last,
        subst (λ l. In last l) (sym same) (In-last done.before.revocations last),
        set_string-hex target.serial,
      ) in
      (
        shows.pem,
        shows.inter,
        shows.published,
        shows.signer,
        λ now. let (st, accepted, exact) = shows.shown target now in (st, accepted, exact.1 has),
      )
