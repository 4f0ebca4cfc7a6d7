-- ===== src/Client/App/Enroll.antt =====
-- appcore.go: enrolling the device, and the state of its certificate.
pub mod Pending
use ttd_elektronik.Prelude.{
  ℕ, String, ◌&◌, Bool, true, false, not, ◌||◌, Option, none, some, [], Result, ok, err,
  if◌then◌else◌, ◌==◌,
}
use ttd_elektronik.Store.Types.{Bytes}
use ttd_elektronik.Core.Certutil
use ttd_elektronik.Core.Certutil.{X509, CertInfo, parse_and_validate_certificate}
use ttd_elektronik.Core.Keys.{
  Keyring, generate_mldsa65_key, marshal_pkcs8_pem, parse_pkcs8, same_key_pair,
}
use ttd_elektronik.Core.Enrollment.Created.{Requester, create_device_csr}
use ttd_elektronik.CaAdmin.Keyfile.{Sealing}
use ttd_elektronik.Api.Types.{Response}
use ttd_elektronik.Client.Api
use ttd_elektronik.Client.Api.{
  Call, Client, root_ca, ca_chain, not_yet_issued, make_device, send_csr, fetch_certificate,
  get_raw,
}
use ttd_elektronik.Client.Keystore.{Dpapi, Codec, Draws}
use ttd_elektronik.Client.Keystore.Vault.{
  Vault, Disk, State, StateCodec, state_of, save_state, save_key, load_key, has_key, delete_key,
  save_device_cert_pem, save_chain_pem, save_root_pem, device_cert_pem,
}
use ttd_elektronik.Client.App.{
  World, Failure, vault_failed, call_failed, key_failed, csr_failed, certificate_unusable,
  key_exists, other_key, wipe_device_state, saved_state,
}

pub record Enrolled : Type 0 where
  pub device_id : String
  pub enrollment_id : String

pub data CertState : Type 0 where
  no_key pending : CertState
  active : CertInfo → CertState

module _ {S : Type 0} (wire : String → Call → S → S × Option Response) (d : Disk) (z : Sealing)
    (w : Dpapi) (j : Codec) (sc : StateCodec) (now : ℕ) (x : X509) (k : Keyring)
    (c : Requester) where
  -- An answer that is saved where there is one; the errors are thrown away.
  abbrev pub fetched : Call → (Bytes → Vault → Vault) → World S → World S
  fetched call save a =
      let (s', r) = get_raw wire a.client call a.server in
      elim r [
        | err e ↦ record a { server = s' }
        | ok pem ↦ record a { server = s'; vault = save pem a.vault }
      ]

  -- The last part of `enrollDevice`.
  abbrev pub remember : String → String → String → World S → World S × Result Failure Enrolled
  remember device enrollment pin a =
      let a1 = fetched root_ca (λ pem v. (save_root_pem d pem v).0) a in
      let a2 = fetched ca_chain (λ pem v. (save_chain_pem d pem v).0) a1 in
      let st = record (state_of sc a2.vault) {
        device_id = device;
        enrollment_id = enrollment;
        has_pin = not (pin == "");
      } in
      let (a3, r) = saved_state wire d z w j sc now st a2 in
      elim r [
        | err e ↦ (a3, err e)
        | ok u ↦ (a3, ok (record { device_id = device; enrollment_id = enrollment }))
      ]

  -- The request for a certificate, for the device that has been made.
  abbrev pub requested :
      String → Bytes → String → String → World S → World S × Result Failure Enrolled
  requested label pkcs8 pin device a =
      elim (create_device_csr x k c pkcs8
        (record { common_name = label; organization = ""; organizational_unit = "" })) [
          | err e ↦ (a, err (csr_failed e))
          | ok csr ↦
              let (s', r) = send_csr wire a.client device csr a.server in
              let a' = record a { server = s' } in
              elim r [
                | err e ↦ (a', err (call_failed e))
                | ok enrollment ↦ remember device enrollment pin a'
              ]
        ]

  -- The device, for the key that has been saved.
  abbrev pub registered : String → Bytes → String → World S → World S × Result Failure Enrolled
  registered label pkcs8 pin a =
      let (s', r) = make_device wire a.client label "windows" a.server in
      elim r [
        | err e ↦ (record a { server = s'; vault = delete_key a.vault }, err (call_failed e))
        | ok device ↦ requested label pkcs8 pin device (record a { server = s' })
      ]

  abbrev pub generated : Bytes → Result Failure Bytes
  generated random = elim (generate_mldsa65_key x k random) [
    | err e ↦ err (key_failed e)
    | ok sk ↦ elim (marshal_pkcs8_pem x k sk) [ err e ↦ err (key_failed e) | ok pem ↦ ok pem ]
  ]

  -- `enrollDevice`
  unfoldable pub enroll_device :
      Bytes → Draws → String → String → World S → World S × Result Failure Enrolled
  enroll_device random draws label pin a = elim (generated random) [
    | err e ↦ (a, err e)
    | ok pkcs8 ↦
        let (v, r) = save_key d z w j draws pin pkcs8 a.vault in
        elim r [
          | err e ↦ (record a { vault = v }, err (vault_failed e))
          | ok u ↦ registered label pkcs8 pin (record a { vault = v })
        ]
  ]

  -- `RegisterDevice`
  unfoldable pub register_device :
      Bytes → Draws → String → String → World S → World S × Result Failure Enrolled
  register_device random draws label pin a =
      if has_key a.vault then (a, err key_exists) else enroll_device random draws label pin a

  abbrev is_awaited : Result Api.Failure Bytes → Bool
  is_awaited (err not_yet_issued) = true
  is_awaited _ = false

  -- `deviceUnknownToServer`
  unfoldable pub device_unknown_to_server : World S → World S × Bool
  device_unknown_to_server a =
      let st = state_of sc a.vault in
      if st.device_id == ""
      then (a, true)
      else let (s', r) = fetch_certificate wire a.client st.device_id a.server in
        (record a { server = s' }, is_awaited r)

  -- The certificate of the server, against the key of the device.
  abbrev pub matched : State → String → Bytes → World S → World S × Result Failure CertState
  matched st pin pem a = elim (parse_and_validate_certificate x pem now) [
    | err e ↦ (a, err (certificate_unusable e))
    | ok (cert, info) ↦ elim (load_key z w j pin a.vault) [
      | err e ↦ (a, err (vault_failed e))
      | ok key_pem ↦ elim (parse_pkcs8 x k key_pem) [
        | err e ↦ (a, err (key_failed e))
        | ok sk ↦
            if not
              (same_key_pair x k sk (record { bytes = cert.public_key; is_mldsa = cert.is_mldsa }))
            then (a, err other_key)
            else let (v, r) = save_device_cert_pem d pem a.vault in
              elim r [
                | err e ↦ (record a { vault = v }, err (vault_failed e))
                | ok u ↦
                    let st' = record st { certificate_sn = info.serial_number } in
                    (record a { vault = (save_state d sc now st' v).0 }, ok (active info))
              ]
      ]
    ]
  ]

  -- The certificate that is cached, if it still passes.
  abbrev pub cached : World S → Option CertInfo
  cached a = elim (device_cert_pem a.vault) [
    | err e ↦ none
    | ok pem ↦ elim (parse_and_validate_certificate x pem now) [
      | err e ↦ none
      | ok (cert, info) ↦ some info
    ]
  ]

  -- The server is asked for the certificate.
  abbrev pub polled : String → World S → World S × Result Failure CertState
  polled pin a =
      let st = state_of sc a.vault in
      if st.device_id == ""
      then (a, ok pending)
      else let (s', r) = fetch_certificate wire a.client st.device_id a.server in
        let a' = record a { server = s' } in
        elim r [
          | ok pem ↦ matched st pin pem a'
          | err not_yet_issued ↦ (a', ok pending)
          | err e ↦ (a', err (call_failed e))
        ]

  -- `CertificateStatus`
  unfoldable pub certificate_status : String → World S → World S × Result Failure CertState
  certificate_status pin a =
      if not (has_key a.vault)
      then (a, ok no_key)
      else elim (cached a) [ some info ↦ (a, ok (active info)) | none ↦ polled pin a ]

  abbrev pub label_for : String → String
  label_for host = if host == "" then "Windows" else "Windows " & host

  -- A fresh enrolment, and then the state.
  abbrev pub renewed :
      Bytes → Draws → String → String → World S → World S × Result Failure CertState
  renewed random draws host pin a =
      let (a', r) =
        enroll_device random draws (label_for host) pin (wipe_device_state wire d z w j sc now a) in
      elim r [ err e ↦ (a', err e) | ok en ↦ certificate_status pin a' ]

  -- `EnsureEnrolled`; `host` is the host's name. The server is asked only where there is a key.
  unfoldable pub ensure_enrolled :
      Bytes → Draws → String → String → World S → World S × Result Failure CertState
  ensure_enrolled random draws host pin a =
      if not (has_key a.vault)
      then renewed random draws host pin a
      else let (a', unknown) = device_unknown_to_server a in
        if unknown then renewed random draws host pin a' else certificate_status pin a'
