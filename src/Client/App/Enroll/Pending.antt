-- ===== src/Client/App/Enroll/Pending.antt =====
-- What the app does with a device whose certificate the CA has not issued yet.
use ttd_elektronik.Prelude.{
  ℕ, String, true, false, ◌&◌, [], Option, none, some, ok, err, ◌==◌, get, ◌≡◌, ◌≢◌, refl, arith,
  ==-false, ◌∙◌, ◌⊎◌, inl, inr, sym, ap, subst, Result-cases, Option-cases, Bool-cases, get-remove,
  get-put, remove, put, not,
}
use ttd_elektronik.Store.Types.{Bytes}
use ttd_elektronik.Core.Certutil.{X509, parse_and_validate_certificate}
use ttd_elektronik.Core.Keys.{Keyring, parse_pkcs8}
use ttd_elektronik.Core.Enrollment.Created.{Requester}
use ttd_elektronik.CaAdmin.Keyfile.{Sealing}
use ttd_elektronik.Api.Types.{Response}
use ttd_elektronik.Client.Api.{Call, device_certificate, do_call, fetch_certificate, not_yet_issued}
use ttd_elektronik.Client.Keystore.{Dpapi, Codec, Draws, protect}
use ttd_elektronik.Core.Enrollment.Created.{Subject, create_device_csr}
use ttd_elektronik.Client.Api.{root_ca, ca_chain, get_raw, make_device, send_csr}
use ttd_elektronik.Client.Keystore.Vault.{
  Disk, StateCodec, state_of, has_key, delete_key, save_state, write_file, save_device_cert_pem,
  save_root_pem, save_chain_pem, save_key, load_key, root_cert, chain_cert, Vault, State, key_file,
  state_file, device_cert,
}
use ttd_elektronik.Client.App.{World, wipe_device_state}
use ttd_elektronik.Client.App.Enroll.{
  pending, certificate_status, ensure_enrolled, device_unknown_to_server, renewed, cached, fetched,
  remember, registered, generated, enroll_device, matched, label_for,
}

write_file-keeps :
    (d : Disk) (p q : String) (b : Bytes) (v : Vault)
    → (p == q) ≡ false
    → ((p & ".tmp") == q) ≡ false
    → get (write_file d p b v).0 q ≡ get v q
unfolding write_file
write_file-keeps d p q b v other other_tmp = ground (
  arith,
  get-put v (p & ".tmp") q b,
  get-put (remove v (p & ".tmp")) p q b,
  get-remove v (p & ".tmp") q,
)

module _ {S : Type 0} (wire : String → Call → S → S × Option Response) (d : Disk) (z : Sealing)
    (w : Dpapi) (j : Codec) (sc : StateCodec) (now : ℕ) (x : X509) (k : Keyring)
    (c : Requester) where
  wipe_device_state-has_key :
      (a : World S) → has_key (wipe_device_state wire d z w j sc now a).vault ≡ false
  unfolding wipe_device_state save_state
  wipe_device_state-has_key a =
      let v1 = delete_key a.vault in
      let v2 = (save_device_cert_pem d [] v1).0 in
      let gone : get v1 key_file ≡ none = get-remove a.vault key_file key_file in
      let kept = write_file-keeps d device_cert key_file [] v1 refl refl in
      let st = record (state_of sc v2) {
        device_id = "";
        enrollment_id = "";
        certificate_sn = "";
        updated_at = now;
      } in
      let kept' = write_file-keeps d state_file key_file (sc.write st) v2 refl refl in
      ground (arith, kept' ∙ (kept ∙ gone))

  -- The vault has no key, or one that is protected anew in this call.
  abbrev pub HasFresh : Bytes → Draws → String → Vault → Type 0
  HasFresh random draws pin v =
      (get v key_file ≡ none)
      ⊎ ((pkcs8 raw : Bytes) × (generated wire d z w j sc now x k c random ≡ ok pkcs8)
          × (protect z w j draws pin pkcs8 ≡ ok raw)
          × (get v key_file ≡ some raw))

  fetched-key :
      (call : Call) (save : Bytes → Vault → Vault) (a : World S)
      → ((pem : Bytes) (v : Vault) → get (save pem v) key_file ≡ get v key_file)
      → get (fetched wire d z w j sc now x k c call save a).vault key_file ≡ get a.vault key_file
  fetched-key call save a kept = elim (Result-cases (get_raw wire a.client call a.server).1) [
    | inr (why, failed) ↦ ground (arith, failed)
    | inl (pem, got) ↦ ground (arith, got, kept pem a.vault)
  ]

  remember-key :
      (device enrollment pin : String) (a : World S)
      → get (remember wire d z w j sc now x k c device enrollment pin a).0.vault key_file
        ≡ get a.vault key_file
  unfolding save_state
  remember-key device enrollment pin a =
      let a1 = fetched wire d z w j sc now x k c root_ca (λ pem v. (save_root_pem d pem v).0) a in
      let a2 =
        fetched wire d z w j sc now x k c ca_chain (λ pem v. (save_chain_pem d pem v).0) a1 in
      let first =
        fetched-key root_ca (λ pem v. (save_root_pem d pem v).0) a
          (λ pem v. write_file-keeps d root_cert key_file pem v refl refl) in
      let second =
        fetched-key ca_chain (λ pem v. (save_chain_pem d pem v).0) a1
          (λ pem v. write_file-keeps d chain_cert key_file pem v refl refl) in
      let st = record (state_of sc a2.vault) {
        device_id = device;
        enrollment_id = enrollment;
        has_pin = not (pin == "");
        updated_at = now;
      } in
      let third = write_file-keeps d state_file key_file (sc.write st) a2.vault refl refl in
      let whole = third ∙ (second ∙ first) in
      elim (Result-cases (write_file d state_file (sc.write st) a2.vault).1) [
        | inr (why, failed) ↦ ground (arith, failed, whole)
        | inl (u, saved) ↦ ground (arith, saved, whole)
      ]

  registered-key :
      (label pin : String) (pkcs8 : Bytes) (a : World S)
      → let v = (registered wire d z w j sc now x k c label pkcs8 pin a).0.vault in
        (get v key_file ≡ none) ⊎ (get v key_file ≡ get a.vault key_file)
  registered-key label pin pkcs8 a =
      let subject : Subject = record {
        common_name = label;
        organization = "";
        organizational_unit = "";
      } in
      elim (Result-cases (make_device wire a.client label "windows" a.server).1) [
        | inr (why, failed) ↦ inl (ground (arith, failed, get-remove a.vault key_file key_file))
        | inl (device, made) ↦ elim (Result-cases (create_device_csr x k c pkcs8 subject)) [
          | inr (why, failed) ↦ inr (ground (arith, made, failed))
          | inl (csr, built) ↦
              let s1 = (make_device wire a.client label "windows" a.server).0 in
              elim (Result-cases (send_csr wire a.client device csr s1).1) [
                | inr (why, failed) ↦ inr (ground (arith, made, built, failed))
                | inl (enrollment, sent) ↦
                    let b : World S = record a {
                      server = (send_csr wire a.client device csr s1).0;
                    } in
                    inr (ground (arith, made, built, sent, remember-key device enrollment pin b))
              ]
        ]
      ]

  enroll_device-HasFresh :
      (random : Bytes) (draws : Draws) (label pin : String) (a : World S)
      → has_key a.vault ≡ false
      → HasFresh random draws pin
          (enroll_device wire d z w j sc now x k c random draws label pin a).0.vault
  unfolding enroll_device save_key write_file
  enroll_device-HasFresh random draws label pin a gone =
      let empty : get a.vault key_file ≡ none =
        ground (arith, gone, Option-cases (get a.vault key_file)) in
      let tmp = key_file & ".tmp" in
      elim (Result-cases (generated wire d z w j sc now x k c random)) [
        | inr (why, failed) ↦ inl (ground (arith, failed, empty))
        | inl (pkcs8, made) ↦ elim (Result-cases (protect z w j draws pin pkcs8)) [
          | inr (why, failed) ↦ inl (ground (arith, made, failed, empty))
          | inl (raw, sealed) ↦ elim (Bool-cases (d.writes tmp)) [
            | inr shut ↦ inl (ground (arith, made, sealed, shut, empty))
            | inl opens ↦ elim (Bool-cases (d.renames key_file)) [
              | inr kept ↦ inl (
                  ground
                    (arith, made, sealed, opens, kept, empty, get-put a.vault tmp key_file raw))
              | inl taken ↦
                  let v : Vault = put (remove a.vault tmp) key_file raw in
                  let b : World S = record a { vault = v } in
                  let held : get v key_file ≡ some raw =
                    get-put (remove a.vault tmp) key_file key_file raw in
                  let saved : save_key d z w j draws pin pkcs8 a.vault ≡ (v, ok tt) =
                    ground (arith, sealed, opens, taken) in
                  let ran : enroll_device wire d z w j sc now x k c random draws label pin a
                      ≡ registered wire d z w j sc now x k c label pkcs8 pin b =
                    rw (enroll_device, made, saved)
                      (ap
                        (λ (u : Vault).
                          registered wire d z w j sc now x k c label pkcs8 pin
                            (record a { vault = u }))
                        (ap (λ y. y.0) saved)) in
                  subst (λ y. HasFresh random draws pin y.0.vault) (sym ran)
                    (elim (registered-key label pin pkcs8 b) [
                      | inl lost ↦ inl lost
                      | inr same ↦ inr (pkcs8, raw, made, sealed, same ∙ held)
                    ])
            ]
          ]
        ]
      ]

  matched-key :
      (st : State) (pin : String) (pem : Bytes) (a : World S)
      → get (matched wire d z w j sc now x k c st pin pem a).0.vault key_file ≡ get a.vault key_file
  unfolding save_state
  matched-key st pin pem a =
      let first = write_file-keeps d device_cert key_file pem a.vault refl refl in
      let v = (save_device_cert_pem d pem a.vault).0 in
      let second = λ (s : State). write_file-keeps d state_file key_file (sc.write s) v refl refl in
      elim (Result-cases (parse_and_validate_certificate x pem now)) [
        | inr (why, failed) ↦ ground (arith, failed)
        | inl ((cert, info), read) ↦ elim (Result-cases (load_key z w j pin a.vault)) [
          | inr (why, failed) ↦ ground (arith, read, failed)
          | inl (key_pem, opened) ↦ elim (Result-cases (parse_pkcs8 x k key_pem)) [
            | inr (why, failed) ↦ ground (arith, read, opened, failed)
            | inl (sk, parsed) ↦
                let st' : State = record st {
                  certificate_sn = info.serial_number;
                  updated_at = now;
                } in
                elim (Result-cases (save_device_cert_pem d pem a.vault).1) [
                  | inr (why, failed) ↦ ground (arith, read, opened, parsed, failed, first)
                  | inl (u, saved) ↦ ground (arith, read, opened, parsed, saved, second st' ∙ first)
                ]
          ]
        ]
      ]

  certificate_status-key :
      (pin : String) (a : World S)
      → get (certificate_status wire d z w j sc now x k c pin a).0.vault key_file
        ≡ get a.vault key_file
  unfolding certificate_status save_state
  certificate_status-key pin a = elim (Bool-cases (has_key a.vault)) [
    | inr missing ↦ ground (arith, missing)
    | inl keyed ↦ elim (Option-cases (cached wire d z w j sc now x k c a)) [
      | inr (info, found) ↦ ground (arith, keyed, found)
      | inl uncached ↦ elim (Bool-cases ((state_of sc a.vault).device_id == "")) [
        | inl unnamed ↦ ground (arith, keyed, uncached, unnamed)
        | inr named ↦
            let id = (state_of sc a.vault).device_id in
            let b : World S = record a {
              server = (fetch_certificate wire a.client id a.server).0;
            } in
            elim (Result-cases (fetch_certificate wire a.client id a.server).1) [
              | inr (why, failed) ↦ ground (arith, keyed, uncached, named, failed)
              | inl (pem, got) ↦
                  ground (
                    arith,
                    keyed,
                    uncached,
                    named,
                    got,
                    matched-key (state_of sc a.vault) pin pem b,
                  )
            ]
      ]
    ]
  ]

  HasFresh-same :
      (random : Bytes) (draws : Draws) (pin : String) (u v : Vault)
      → get v key_file ≡ get u key_file
      → HasFresh random draws pin u
      → HasFresh random draws pin v
  HasFresh-same random draws pin u v same (inl lost) = inl (same ∙ lost)
  HasFresh-same random draws pin u v same (inr (pkcs8, raw, made, sealed, held)) =
      inr (pkcs8, raw, made, sealed, same ∙ held)

  renewed-HasFresh :
      (random : Bytes) (draws : Draws) (host pin : String) (a : World S)
      → HasFresh random draws pin
          (renewed wire d z w j sc now x k c random draws host pin a).0.vault
  renewed-HasFresh random draws host pin a =
      let label = label_for wire d z w j sc now x k c host in
      let b = wipe_device_state wire d z w j sc now a in
      let fresh = enroll_device-HasFresh random draws label pin b (wipe_device_state-has_key a) in
      let b' = (enroll_device wire d z w j sc now x k c random draws label pin b).0 in
      let after = (renewed wire d z w j sc now x k c random draws host pin a).0.vault in
      elim (Result-cases (enroll_device wire d z w j sc now x k c random draws label pin b).1) [
        | inr (why, failed) ↦
            let ran : after ≡ b'.vault = ground (arith, failed) in
            subst (HasFresh random draws pin) (sym ran) fresh
        | inl (en, went) ↦
            let ran : get after key_file ≡ get b'.vault key_file =
              ground (arith, went, certificate_status-key pin b') in
            HasFresh-same random draws pin b'.vault after ran fresh
      ]

  -- A device with a key, whose certificate the server answers with a 404, as it does for one that is
  -- not issued yet, reads as pending; yet the next run of `EnsureEnrolled` takes its key away: however
  -- that run ends, the vault has no key or one that the run itself has generated.
  pub ensure_enrolled-pending :
      (random : Bytes) (draws : Draws) (host pin : String) (a : World S) (s' : S) (r : Response)
      → has_key a.vault ≡ true
      → cached wire d z w j sc now x k c a ≡ none
      → (state_of sc a.vault).device_id ≢ ""
      → wire a.client.token (device_certificate (state_of sc a.vault).device_id) a.server
        ≡ (s', some r)
      → r.code ≡ 404
      → (certificate_status wire d z w j sc now x k c pin a
          ≡ (record a { server = s' }, ok pending))
        × HasFresh random draws pin
            (ensure_enrolled wire d z w j sc now x k c random draws host pin a).0.vault
  unfolding certificate_status ensure_enrolled device_unknown_to_server fetch_certificate do_call
  ensure_enrolled-pending random draws host pin a s' r keyed uncached named answered code =
      let id : String = (state_of sc a.vault).device_id in
      let a' : World S = record a { server = s' } in
      let known : (id == "") ≡ false = ==-false id "" named in
      let fetched : fetch_certificate wire a.client id a.server ≡ (s', err not_yet_issued) =
        ground (arith, answered, code) in
      let unknown : device_unknown_to_server wire d z w j sc now x k c a ≡ (a', true) =
        ground (arith, known, fetched) in
      let ran : ensure_enrolled wire d z w j sc now x k c random draws host pin a
          ≡ renewed wire d z w j sc now x k c random draws host pin a' =
        ground (arith, keyed, unknown) in
      (
        ground (arith, keyed, uncached, known, fetched),
        subst (λ y. HasFresh random draws pin y.0.vault) (sym ran)
            (renewed-HasFresh random draws host pin a'),
      )
