-- ===== src/CaAdmin/Commands/Unsaved.antt =====
-- `cmdCRL` where the ledger cannot be written: the list is out before its number is recorded.
use ttd_elektronik.Prelude.{
  ℕ, ◌+◌, ◌*◌, String, false, some, List, ok, err, get, Ranging, ◌≡◌, arith, ap, ◌∙◌,
}
use ttd_elektronik.Store.Types.{Bytes}
use ttd_elektronik.Core.Certutil.{X509}
use ttd_elektronik.Core.Enrollment.{Requests}
use ttd_elektronik.Core.Keys.{Keyring}
use ttd_elektronik.Core.Labpki.{Ca, Pki, RevokedEntry, day, new_crl_detailed}
use ttd_elektronik.CaAdmin.Files.{Files, Json, Env, Ledger, unwritable, write_file}
use ttd_elektronik.CaAdmin.Keyfile.{Sealing}
use ttd_elektronik.CaAdmin.Castore.{
  opened, open_store, load_ledger, load_ca, loaded, decoded, publish, save_ledger,
}
use ttd_elektronik.CaAdmin.Commands.{all_listed, cmd_crl}
use ttd_elektronik.CaAdmin.Commands.Revoked.{ledger_of}
use ttd_elektronik.CaAdmin.Commands.Published.{publish-crl, publish-ledger}

module _ (x : X509) (q : Requests) (k : Keyring) (p : Pki) (j : Json) (z : Sealing) (env : Env)
    (r : Ranging) where
  -- What a run of `cmdCRL` on `f` comes to before it writes.
  pub record IsSigned (f : Files) (days : ℕ) (l : Ledger) (pem : Bytes) : Type 0 where
    pub entries : List RevokedEntry
    pub inter : Ca
    pub open_now : opened env f ≡ ok tt
    pub found : ledger_of j f ≡ ok l
    pub signer : loaded x k p j z env "intermediate" f ≡ ok inter
    pub read : all_listed l.revocations ≡ some entries
    pub made : new_crl_detailed x k p env.now inter entries (l.crl_number + 1) (days * day) ≡ ok pem
    pub published : (publish x k p j z env r inter (some pem) f).1 ≡ ok tt

  -- Where the list is signed and published but the ledger cannot be opened to write, the run ends with an
  -- error; yet the list with the next number is out, and the ledger still has the number before it,
  -- which the next run will count from.
  pub cmd_crl-unsaved :
      (note : ℕ → ℕ → String) (days : ℕ) (out : String) (f : Files) (l : Ledger) (pem : Bytes)
      → IsSigned f days l pem
      → env.can_write "ledger.json" ≡ false
      → let (f', result) = cmd_crl x q k p j z env r note days out f in
        (result ≡ err unwritable)
        × (get f'.files "public/crl.pem" ≡ some pem)
        × (ledger_of j f' ≡ ok l)
  unfolding cmd_crl open_store load_ledger load_ca save_ledger write_file
  cmd_crl-unsaved note days out f l pem h shut =
      let f1 = (publish x k p j z env r h.inter (some pem) f).0 in
      let ends : cmd_crl x q k p j z env r note days out f ≡ (f1, err unwritable) =
        ground (arith, h.open_now, h.found, h.signer, h.read, h.made, h.published, shut) in
      (
        ap (λ y. y.1) ends,
        ap (λ y. get y.0.files "public/crl.pem") ends
            ∙ publish-crl x q k p j z env r h.inter pem f f1 (ground (arith, h.published)),
        ap (λ y. ledger_of j y.0) ends
            ∙ (ap (decoded j) (publish-ledger x q k p j z env r h.inter pem f) ∙ h.found),
      )
