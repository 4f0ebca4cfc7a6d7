-- ===== src/Api/Accounts.antt =====
-- accounts.go: the life of an end user's account. An admin approves, enables, updates, disables and
-- deletes it; the last two revoke the account's certificates.
pub mod Cascade
pub mod Directory
pub mod Deleted
pub mod Targets
pub mod Revoked
pub mod Lost
use ttd_elektronik.Prelude.{
  ℕ, ◌+◌, String, ◌&◌, Bool, true, false, not, Option, none, some, List, [], ◌∷◌, Result, ok, err,
  ◌==◌, if◌then◌else◌, length, keep, Ranging, put,
}
use ttd_elektronik.Store.Types.{
  Bytes, Account, zero_account, Certificate, Device, Error, role_user, account_active,
  account_disabled, cert_active, device_lost, event,
}
use ttd_elektronik.Store.Memory.{Memory}
use ttd_elektronik.Store.Accounts.{
  account, list_accounts, set_account_status, update_account_profile, delete_account,
}
use ttd_elektronik.Store.Devices.{devices_by_account, set_device_status}
use ttd_elektronik.Store.Certificates.{certificates_by_account, revoke_certificate}
use ttd_elektronik.Api.Types.{
  Draw, Object, Response, Body, table, json, write_json, write_err, log, str, num, time,
}
use ttd_elektronik.Api.Server.{Config, Server}

abbrev pub is_active : Certificate → Bool
is_active c = c.status == cert_active

-- `a, _ := s.st.Account(id)`
abbrev pub account_or_zero : String → Memory → Account
account_or_zero id m = elim (account id m) [ err e ↦ zero_account | ok a ↦ a ]

-- `accountView`
unfoldable pub account_view : Ranging → Account → Memory → Object
account_view r a m =
    let certs = certificates_by_account r a.id m in
    ("account_id", str a.id)
    ∷ ("email", str a.email)
    ∷ ("username", str a.email)
    ∷ ("full_name", str a.full_name)
    ∷ ("organization", str a.organization)
    ∷ ("role", str a.role)
    ∷ ("status", str a.status)
    ∷ ("created_at", time a.created_at)
    ∷ ("certificates", num (length certs))
    ∷ ("active_certificates", num (length (keep is_active certs)))
    ∷ []

-- `clientTarget`: the account of the route, or the refusal that was written.
unfoldable pub client_target : String → Memory → Result Response Account
client_target id m = elim (account id m) [
  | err e ↦ err (write_err 404 "account not found")
  | ok a ↦
      if not (a.role == role_user)
      then err (write_err 403 "akun admin dikelola di menu Admin (khusus super admin)")
      else ok a
]

abbrev with_store : Memory → Server → Server
with_store m s = record s { st = m }

-- The event of a change to an account, and the answer that shows the account as it is then.
abbrev shown : Ranging → Draw → String → String → String → Memory → Server → Server × Response
shown r d type id detail m s =
    let m' = log (d.id 0) d.now (event type id "" "ok" detail) m in
    (with_store m' s, write_json 200 (account_view r (account_or_zero id m') m'))

-- `hListAccounts`
abbrev views : Ranging → Memory → List Account → List Object
views r m [] = []
views r m (a ∷ as_) = account_view r a m ∷ views r m as_

unfoldable pub h_list_accounts : Ranging → Server → Server × Response
h_list_accounts r s =
    (s, record { code = 200; body = table "accounts" (views r s.st (list_accounts r s.st)) })

-- `hApproveAccount`
abbrev status_set :
    Ranging
    → Draw
    → String
    → String
    → String
    → Memory × Result Error (Unit {0})
    → Server
    → Server × Response
status_set r d type id detail (m, err e) s = (with_store m s, write_err 500 "update")
status_set r d type id detail (m, ok u) s = shown r d type id detail m s

unfoldable pub h_approve_account : Ranging → Draw → String → Server → Server × Response
h_approve_account r d id s = elim (client_target id s.st) [
  | err refused ↦ (s, refused)
  | ok a ↦
      if a.status == account_active
      then (s, write_json 200 (account_view r a s.st))
      else status_set r d "account.approve" a.id "" (set_account_status a.id account_active s.st) s
]

-- `hEnableAccount`
unfoldable pub h_enable_account : Ranging → Draw → String → Server → Server × Response
h_enable_account r d id s = elim (client_target id s.st) [
  | err refused ↦ (s, refused)
  | ok a ↦
      status_set r d "account.enable" a.id
        "prior certificates stay revoked; the user re-enrols on next login"
        (set_account_status a.id account_active s.st) s
]

-- `hUpdateAccount`; the input is the full name and the organization, `none` where the body does not
-- decode.
unfoldable pub h_update_account :
    Ranging → Draw → String → Option (String × String) → Server → Server × Response
h_update_account r d id input s = elim (client_target id s.st) [
  | err refused ↦ (s, refused)
  | ok a ↦ elim input [
    | none ↦ (s, write_err 400 "bad body")
    | some (full_name, org) ↦
        status_set r d "account.update" a.id "" (update_account_profile a.id full_name org s.st) s
  ]
]
