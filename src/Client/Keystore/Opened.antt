-- ===== src/Client/Keystore/Opened.antt =====
-- A key that is protected opens again, for the same account and PIN.
use ttd_elektronik.Prelude.{
  String, true, false, some, [], ◌∷◌, ok, err, ◌==◌, ◌≡◌, ◌≢◌, refl, sym, ap, ◌∙◌, eq_iff, arith,
  Option-cases, Bool-cases, inl, inr,
}
use ttd_elektronik.Store.Types.{Bytes}
use ttd_elektronik.CaAdmin.Keyfile.{Sealing}
use ttd_elektronik.CaAdmin.Keyfile.Sealed.{Opens}
use ttd_elektronik.Client.Keystore.{
  Dpapi, Codec, Draws, Blob, pin_needed, protect, unprotect, bound, with_pin, without_pin, pin_key,
  params,
}

-- What encoding/json and DPAPI of one account do.
pub record ReadsBack (w : Dpapi) (j : Codec) : Type 0 where
  pub blob : (b : Blob) → j.read (j.write b) ≡ some b
  pub dpapi : (secret dp : Bytes) → w.protect secret ≡ some dp → w.unprotect dp ≡ some secret

module _ (z : Sealing) (w : Dpapi) (j : Codec) (law : Opens z) (back : ReadsBack w j) where
  -- What is written last reads back with what DPAPI holds.
  bound_sound :
      (b : Blob) (secret raw : Bytes)
      → bound z w j b secret ≡ ok raw
      → (dp : Bytes) × (j.read raw ≡ some (record b { dpapi_blob = dp }))
        × (w.unprotect dp ≡ some secret)
  bound_sound b secret raw e = elim (Option-cases (w.protect secret)) [
    | inl failed ↦ absurd (ground arith)
    | inr (dp, made) ↦
        let written : j.write (record b { dpapi_blob = dp }) ≡ raw = ground arith in
        (
          dp,
          ap j.read (sym written) ∙ back.blob (record b { dpapi_blob = dp }),
          back.dpapi secret dp made,
        )
  ]

  -- The blob of a key under `pin`, read again.
  abbrev Opening : String → Bytes → Bytes → Type 0
  Opening pin pkcs8 raw =
      (unprotect z w j pin raw ≡ ok pkcs8) × (pin ≢ "" → unprotect z w j "" raw ≡ err pin_needed)

  Opening-pin :
      (d : Draws) (pin : String) (pkcs8 raw wrap_key nonce : Bytes)
      → (pin == "") ≡ false
      → with_pin z w j d pin (without_pin z w j d nonce (z.seal wrap_key nonce pkcs8)) wrap_key
        ≡ ok raw
      → Opening pin pkcs8 raw
  unfolding unprotect
  Opening-pin d pin pkcs8 raw wrap_key nonce given e = elim (Option-cases d.salt) [
    | inl no_salt ↦ absurd (ground arith)
    | inr (salt, salted) ↦ elim (Option-cases d.wrap_nonce) [
      | inl no_nonce ↦ absurd (ground arith)
      | inr (wn, drawn) ↦
          let k = pin_key z w j pin (params z w j salt) in
          let b = without_pin z w j d nonce (z.seal wrap_key nonce pkcs8) in
          let sealed : Blob = record b {
            kdf = some (params z w j salt);
            wrap_nonce = wn;
            wrap_ct = z.seal k wn wrap_key;
          } in
          let (dp, read, secret) = bound_sound sealed (z.seal k wn wrap_key) raw (ground arith) in
          (
            rw
                (
                  unprotect,
                  read,
                  secret,
                  given,
                  law.opens k wn wrap_key,
                  law.opens wrap_key nonce pkcs8,
                )
                refl,
            λ named. rw (unprotect, read, secret) refl,
          )
    ]
  ]

  Opening-plain :
      (d : Draws) (pin : String) (pkcs8 raw wrap_key nonce : Bytes)
      → (pin == "") ≡ true
      → bound z w j (without_pin z w j d nonce (z.seal wrap_key nonce pkcs8)) wrap_key ≡ ok raw
      → Opening pin pkcs8 raw
  unfolding unprotect
  Opening-plain d pin pkcs8 raw wrap_key nonce given e =
      let (dp, read, secret) =
        bound_sound (without_pin z w j d nonce (z.seal wrap_key nonce pkcs8)) wrap_key raw e in
      (
        rw (unprotect, read, secret, law.opens wrap_key nonce pkcs8) refl,
        λ named. absurd (named ((eq_iff pin "").0 given)),
      )

  -- A key that was protected is given back for the same account and the same PIN, which may be none;
  -- with a PIN, it is refused without one.
  pub unprotect-protect :
      (d : Draws) (pin : String) (pkcs8 raw : Bytes)
      → protect z w j d pin pkcs8 ≡ ok raw
      → (unprotect z w j pin raw ≡ ok pkcs8) × (pin ≢ "" → unprotect z w j "" raw ≡ err pin_needed)
  unfolding protect
  unprotect-protect d pin [] raw e = absurd (ground arith)
  unprotect-protect d pin (c ∷ cs) raw e = elim (Option-cases d.wrap_key) [
    | inl no_key ↦ absurd (ground arith)
    | inr (wrap_key, drawn) ↦ elim (Option-cases d.key_nonce) [
      | inl no_nonce ↦ absurd (ground arith)
      | inr (nonce, drawn') ↦ elim (Bool-cases (pin == "")) [
        | inl plain ↦ Opening-plain d pin (c ∷ cs) raw wrap_key nonce plain (ground arith)
        | inr given ↦ Opening-pin d pin (c ∷ cs) raw wrap_key nonce given (ground arith)
      ]
    ]
  ]
