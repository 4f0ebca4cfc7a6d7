-- ===== src/CaAdmin/Castore/Reloaded.antt =====
-- An authority that is written to the CA directory is loaded from it again.
use ttd_elektronik.Prelude.{
  Option-cases, ℕ, ◌+◌, String, false, Option, none, some, ok, get, put, get-put, eq_refl, ◌==◌,
  if◌then◌else◌, ◌≡◌, refl, arith, Bool-cases, Result-cases, inl, inr, ap, ◌∙◌,
}
use ttd_elektronik.Store.Types.{Bytes}
use ttd_elektronik.Core.Certutil.{X509, parse_certificate_pem}
use ttd_elektronik.Core.Keys.{Keyring, IsKept, marshal_pkcs8_pem, parse_pkcs8-marshal_pkcs8_pem}
use ttd_elektronik.Core.Labpki.{Ca, Pki, cert_pem}
use ttd_elektronik.CaAdmin.Files.{Files, Json, ReadsBack, Env, write_file}
use ttd_elektronik.CaAdmin.Keyfile.{
  Sealing, seal_key_pem, open_key_pem, sealed_blob, argon_time, argon_mem_kib, argon_threads,
  derive_key,
}
use ttd_elektronik.CaAdmin.Keyfile.Sealed.{Opens}
use ttd_elektronik.CaAdmin.Castore.{write_ca, loaded, key_file, sealed_file, cert_file}

-- The three files of an authority have three paths.
pub record IsApart (name : String) : Type 0 where
  pub sealed_cert : (sealed_file name == cert_file name) ≡ false
  pub key_cert : (key_file name == cert_file name) ≡ false
  pub cert_sealed : (cert_file name == sealed_file name) ≡ false
  pub cert_key : (cert_file name == key_file name) ≡ false
  pub key_sealed : (key_file name == sealed_file name) ≡ false

module _ (x : X509) (k : Keyring) (p : Pki) (j : Json) (z : Sealing) (env : Env)
    (reads : ReadsBack j) (law : Opens z) where
  -- The key's file under the passphrase of `env`, without one in the clear.
  open_key_pem-sealed :
      (salt iv : Option Bytes) (pem blob : Bytes) (pass : String)
      → seal_key_pem j z salt iv pem pass ≡ ok blob
      → open_key_pem j z blob pass ≡ ok pem
  unfolding seal_key_pem open_key_pem
  open_key_pem-sealed none iv pem blob pass e = absurd (ground (arith, Bool-cases (pass == "")))
  open_key_pem-sealed (some s) none pem blob pass e =
      absurd (ground (arith, Bool-cases (pass == "")))
  open_key_pem-sealed (some s) (some n) pem blob pass e =
      let given : (pass == "") ≡ false = ground (arith, Bool-cases (pass == "")) in
      let written : j.blob (sealed_blob j z pass s n pem) ≡ blob = ground arith in
      rw (← written, open_key_pem, reads.blob (sealed_blob j z pass s n pem), given)
        (ground
          (arith, law.opens (derive_key j z pass s argon_time argon_mem_kib argon_threads) n pem))

  -- The files after an authority is written: its key in `file`, then its certificate.
  abbrev filed : String → Bytes → String → Ca → Files → Files
  filed file raw name ca f = record f {
    files = put (put f.files file raw) (cert_file name) (cert_pem x k p ca.cert);
  }

  get-filed :
      (file : String) (raw : Bytes) (name : String) (ca : Ca) (f : Files) (path : String)
      → get (filed file raw name ca f).files path ≡ (
          if cert_file name == path
          then some (cert_pem x k p ca.cert)
          else if file == path
          then some raw
          else get f.files path)
  get-filed file raw name ca f path = rw (get-put, get-put) refl

  -- An authority that is written is loaded as it was, under the same passphrase or without one; the
  -- directory has no sealed key of that name before.
  pub loaded-write_ca :
      (n : ℕ) (name : String) (ca : Ca) (f f' : Files)
      → IsApart name
      → IsKept x k ca.key
      → parse_certificate_pem x (cert_pem x k p ca.cert) ≡ ok ca.cert
      → get f.files (sealed_file name) ≡ none
      → write_ca x k p j z env n name ca f ≡ (f', ok tt)
      → loaded x k p j z env name f' ≡ ok ca
  unfolding write_ca loaded write_file
  loaded-write_ca n name ca f f' apart kept cert new e =
      elim (Result-cases (marshal_pkcs8_pem x k ca.key)) [
        | inr (why, failed) ↦ absurd (ground arith)
        | inl (pem, made) ↦
            let parsed = parse_pkcs8-marshal_pkcs8_pem x k ca.key pem kept made in
            elim (Bool-cases (env.passphrase == "")) [
              | inl clear ↦
                  let g = filed (key_file name) pem name ca f in
                  let same : f' ≡ g = ground (
                    arith,
                    Bool-cases (env.can_write (key_file name)),
                    Option-cases (env.breaks (key_file name)),
                    Bool-cases (env.can_write (cert_file name)),
                    Option-cases (env.breaks (cert_file name)),
                  ) in
                  let at = get-filed (key_file name) pem name ca f in
                  let no_sealed : get g.files (sealed_file name) ≡ none =
                    at (sealed_file name) ∙ rw (apart.cert_sealed, apart.key_sealed) new in
                  let key : get g.files (key_file name) ≡ some pem =
                    at (key_file name) ∙ rw (apart.cert_key, eq_refl) refl in
                  let own : get g.files (cert_file name) ≡ some (cert_pem x k p ca.cert) =
                    at (cert_file name) ∙ rw eq_refl refl in
                  let done : loaded x k p j z env name g ≡ ok ca =
                    rw (loaded, no_sealed, key, parsed, own, cert) refl in
                  ap (loaded x k p j z env name) same ∙ done
              | inr given ↦
                  elim (Result-cases
                    (seal_key_pem j z (env.random n) (env.random (n + 1)) pem env.passphrase)) [
                      | inr (why, failed) ↦ absurd (ground arith)
                      | inl (blob, sealed) ↦
                          let g = filed (sealed_file name) blob name ca f in
                          let same : f' ≡ g = ground (
                            arith,
                            Bool-cases (env.can_write (sealed_file name)),
                            Option-cases (env.breaks (sealed_file name)),
                            Bool-cases (env.can_write (cert_file name)),
                            Option-cases (env.breaks (cert_file name)),
                          ) in
                          let at = get-filed (sealed_file name) blob name ca f in
                          let key : get g.files (sealed_file name) ≡ some blob =
                            at (sealed_file name) ∙ rw (apart.cert_sealed, eq_refl) refl in
                          let own : get g.files (cert_file name) ≡ some (cert_pem x k p ca.cert) =
                            at (cert_file name) ∙ rw eq_refl refl in
                          let opens = open_key_pem-sealed _ _ pem blob env.passphrase sealed in
                          let done : loaded x k p j z env name g ≡ ok ca =
                            rw (loaded, key, opens, parsed, own, cert) refl in
                          ap (loaded x k p j z env name) same ∙ done
                    ]
            ]
      ]
