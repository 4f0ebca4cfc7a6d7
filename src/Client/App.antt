-- ===== src/Client/App.antt =====
-- apps/windows/internal/appcore/appcore.go: what the windows of the client call. The vault is on disk,
-- the server behind the network is the parameter `wire` over the state `S`; both are passed on even
-- where a step fails. `Draws` of a call are given by number.
pub mod Enroll
pub mod Sign
use ttd_elektronik.Prelude.{
  ℕ, String, ◌&◌, Bool, true, false, not, ◌||◌, Option, none, some, Result, ok, err, if◌then◌else◌,
  ◌==◌, [],
}
use ttd_elektronik.Store.Types.{Bytes}
use ttd_elektronik.Core.Certutil
use ttd_elektronik.Core.Keys
use ttd_elektronik.Core.Signing
use ttd_elektronik.Core.Verification
use ttd_elektronik.Core.Enrollment.Created
use ttd_elektronik.CaAdmin.Keyfile.{Sealing}
use ttd_elektronik.Api.Types.{Response}
use ttd_elektronik.Client.Api
use ttd_elektronik.Client.Api.{Call, Client, log_in, tell_lost}
use ttd_elektronik.Client.Keystore
use ttd_elektronik.Client.Keystore.{Dpapi, Codec, Draws}
use ttd_elektronik.Client.Keystore.Vault.{
  Vault, Disk, State, StateCodec, state_of, save_state, save_key, load_key, has_key, delete_key,
  save_device_cert_pem, reset,
}

pub data Failure : Type 0 where
  vault_failed : Keystore.Failure → Failure
  call_failed : Api.Failure → Failure
  key_failed : Keys.Error → Failure
  csr_failed : Created.Failure → Failure
  certificate_unusable : Certutil.Error → Failure
  sign_failed : Signing.Failure → Failure
  stamp_failed : Api.Failure → Failure
  key_exists other_key : Failure
  no_chain no_certificate no_root no_device : Failure
  unread unwritten already_signed : Failure
  unverified : Option Verification.Failure → Failure

-- The vault, the client with its token, and the server.
pub record World (S : Type 0) : Type 0 where
  pub vault : Vault
  pub client : Client
  pub server : S

-- A vault's outcome in the world.
module _ {S : Type 0} where
  abbrev pub in_vault :
      World S → Vault × Result Keystore.Failure (Unit {0}) → World S × Result Failure (Unit {0})
  in_vault a (v, ok u) = (record a { vault = v }, ok u)
  in_vault a (v, err e) = (record a { vault = v }, err (vault_failed e))

module _ {S : Type 0} (wire : String → Call → S → S × Option Response) (d : Disk) (z : Sealing)
    (w : Dpapi) (j : Codec) (sc : StateCodec) (now : ℕ) where
  abbrev pub saved_state : State → World S → World S × Result Failure (Unit {0})
  saved_state st a = in_vault a (save_state d sc now st a.vault)

  -- `Login`
  unfoldable pub login : String → String → World S → World S × Result Failure (Unit {0})
  login email password a =
      let (s', r) = log_in wire a.client email password a.server in
      elim r [
        | err e ↦ (record a { server = s' }, err (call_failed e))
        | ok c ↦
            saved_state (record (state_of sc a.vault) { account_email = email })
              (record a { server = s'; client = c })
      ]

  -- `SetServerURL`
  unfoldable pub set_server_url : String → World S → World S × Result Failure (Unit {0})
  set_server_url u a =
      saved_state (record (state_of sc a.vault) { server_base_url = u })
        (record a { client = record { base = u; token = "" } })

  -- `SetPIN`
  unfoldable pub set_pin : Draws → String → String → World S → World S × Result Failure (Unit {0})
  set_pin draws old_pin new_pin a = elim (load_key z w j old_pin a.vault) [
    | err e ↦ (a, err (vault_failed e))
    | ok key ↦
        let (v, r) = save_key d z w j draws new_pin key a.vault in
        elim r [
          | err e ↦ (record a { vault = v }, err (vault_failed e))
          | ok u ↦
              saved_state (record (state_of sc v) { has_pin = not (new_pin == "") })
                (record a { vault = v })
        ]
  ]

  -- `ReportLost`
  unfoldable pub report_lost : World S → World S × Result Failure (Unit {0})
  report_lost a =
      let st = state_of sc a.vault in
      if st.device_id == ""
      then (a, err no_device)
      else let (s', r) = tell_lost wire a.client st.device_id a.server in
        (record a { server = s' }, elim r [ err e ↦ err (call_failed e) | ok u ↦ ok u ])

  -- `Reset`
  abbrev pub reset_vault : World S → World S
  reset_vault a = record a { vault = reset a.vault }

  -- `wipeDeviceState`; its errors are thrown away.
  unfoldable pub wipe_device_state : World S → World S
  wipe_device_state a =
      let v1 = delete_key a.vault in
      let v2 = (save_device_cert_pem d [] v1).0 in
      let st = record (state_of sc v2) {
        device_id = "";
        enrollment_id = "";
        certificate_sn = "";
      } in
      record a { vault = (save_state d sc now st v2).0 }
