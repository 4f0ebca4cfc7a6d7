-- ===== src/Api/Accounts/Cascade.antt =====
-- accounts.go and devissue.go: what disabling or deleting an account revokes.
use ttd_elektronik.Prelude.{
  ℕ, ◌+◌, ◌&&◌, String, ◌&◌, not, Option, none, some, List, [], ◌∷◌, ◌++◌, ok, err, ◌==◌,
  if◌then◌else◌, ltb, length, Ranging,
}
use ttd_elektronik.Store.Types.{Bytes, Certificate, Device, account_disabled, device_lost, event}
use ttd_elektronik.Store.Memory.{Memory}
use ttd_elektronik.Store.Accounts.{set_account_status, delete_account}
use ttd_elektronik.Store.Devices.{devices_by_account, set_device_status}
use ttd_elektronik.Store.Certificates.{certificates_by_account, revoke_certificate}
use ttd_elektronik.Api.Types.{Draw, Response, write_json, log, str, num}
use ttd_elektronik.Api.Server.{Config, Server}
use ttd_elektronik.Api.Accounts.{client_target, is_active}

-- What the cascade has done so far: the store, the number of certificates revoked, and the serials
-- that the CA was asked to revoke.
pub record Progress : Type 0 where
  pub store : Memory
  pub count : ℕ
  pub asked : List String

abbrev pub starting : Memory → Progress
starting m = record { store = m; count = 0; asked = [] }

-- `revokeViaCA`: without a CA nothing is asked; the cascade ignores the answer.
abbrev revoke_via_ca : Config → String → List String → List String
revoke_via_ca cfg serial asked = if cfg.lab_issuer then asked ++ serial ∷ [] else asked

-- `publishCRLViaCA`: `published` is what the CA gives, `none` an error.
abbrev publish_crl_via_ca : Config → Option Bytes → Option Bytes
publish_crl_via_ca cfg published = if cfg.lab_issuer then published else some []

-- The inner loop over the devices of the account.
unfoldable pub lose_devices : List Device → String → Memory → Memory
lose_devices [] device m = m
lose_devices (x ∷ xs) device m =
    lose_devices xs device (if x.id == device then (set_device_status x.id device_lost m).0 else m)

module _ (cfg : Config) (r : Ranging) (d : Draw) (id reason : String) where
  -- The body of the loop for an active certificate.
  unfoldable pub revoke_one : Certificate → Progress → Progress
  revoke_one c p =
      let m = (revoke_certificate c.id reason d.now p.store).0 in
      let m' = lose_devices (devices_by_account r id m) c.device_id m in
      record {
        store =
            log (d.id p.count) d.now
              (event "certificate.revoke" id c.device_id "ok" (c.serial & " " & reason)) m';
        count = p.count + 1;
        asked = revoke_via_ca cfg c.serial p.asked;
      }

  unfoldable pub revoke_all : List Certificate → Progress → Progress
  revoke_all [] p = p
  revoke_all (c ∷ cs) p = revoke_all cs (if not (is_active c) then p else revoke_one c p)

  -- What follows the loop.
  abbrev publish : Option Bytes → Progress → Server → Server
  publish published p s = elim (publish_crl_via_ca cfg published) [
    | none ↦ record s { st = p.store }
    | some crl ↦
        if ltb 0 p.count && ltb 0 (length crl)
        then record s {
          st = log (d.id p.count) d.now (event "crl.publish" id "" "ok" "") p.store;
          crl = crl;
        }
        else record s { st = p.store }
  ]

  -- `disableCascade`: the new state, and what the loop has done.
  unfoldable pub disable_cascade : Option Bytes → Server → Server × Progress
  disable_cascade published s =
      let p = revoke_all (certificates_by_account r id s.st) (starting s.st) in
      (publish published p s, p)

module _ (cfg : Config) (r : Ranging) (d : Draw) (published : Option Bytes) where
  -- `hDisableAccount`
  unfoldable pub h_disable_account : String → Server → Server × Response
  h_disable_account id s = elim (client_target id s.st) [
    | err refused ↦ (s, refused)
    | ok a ↦
        let off = record s { st = (set_account_status a.id account_disabled s.st).0 } in
        let (s', p) = disable_cascade cfg r d a.id "account disabled" published off in
        (
          record s' {
            st = log (d.id (p.count + 1)) d.now (event "account.disable" a.id "" "ok" "") s'.st;
          },
          write_json 200 (
              ("account_id", str a.id)
              ∷ ("status", str account_disabled)
              ∷ ("certificates_revoked", num p.count)
              ∷ []),
        )
  ]

  -- `hDeleteAccount`
  unfoldable pub h_delete_account : String → Server → Server × Response
  h_delete_account id s = elim (client_target id s.st) [
    | err refused ↦ (s, refused)
    | ok a ↦
        let off = record s { st = (set_account_status a.id account_disabled s.st).0 } in
        let (s', p) = disable_cascade cfg r d a.id "account deleted" published off in
        let (m, gone) = delete_account a.id s'.st in
        elim gone [
          | err e ↦ (
            record s' {
              st = log (d.id (p.count + 1)) d.now (event "account.delete" a.id "" "tombstone" "") m;
            },
            write_json 200 (
                ("account_id", str a.id)
                ∷ ("status", str account_disabled)
                ∷ ("certificates_revoked", num p.count)
                ∷ (
                  "note",
                  str "akun punya riwayat tanda tangan; dinonaktifkan permanen alih-alih dihapus",
                )
                ∷ []),
          )
          | ok u ↦ (
            record s' {
              st = log (d.id (p.count + 1)) d.now (event "account.delete" a.id "" "ok" "") m;
            },
            write_json 200 (
                ("account_id", str a.id)
                ∷ ("status", str "deleted")
                ∷ ("certificates_revoked", num p.count)
                ∷ []),
          )
        ]
  ]
