-- ===== src/Api/Session.antt =====
-- handlers.go and api.go: registration, login, and the first super admin.
pub mod Gate
pub mod Locked
pub mod Opened
pub mod Bootstrap
use ttd_elektronik.Prelude.{
  ℕ, ◌/◌, String, Bool, true, false, not, Option, none, some, List, [], ◌∷◌, Result, ok, err, ◌==◌,
  ◌||◌, if◌then◌else◌, ltb, or_else, byte_length, trim_space, Ranging,
}
use ttd_elektronik.Store.Types.{
  Account, zero_account, Error, role_user, role_super_admin, account_pending, account_active,
  account_disabled, event,
}
use ttd_elektronik.Store.Memory.{Memory}
use ttd_elektronik.Store.Accounts.{create_account, list_accounts, account_by_email}
use ttd_elektronik.Api.Types.{
  Draw, Response, write_json, write_err, log, str, num, Passwords, error_text,
}
use ttd_elektronik.Api.Server.{Config, Server}

pub record RegisterInput : Type 0 where
  pub email : String
  pub password : String
  pub display_name : String
  pub full_name : String
  pub organization : String
  pub position : String
  pub nip : String

abbrev pub registration : RegisterInput → String → Account
registration i hash = record {
  id = "";
  email = i.email;
  display_name = or_else i.display_name i.full_name;
  full_name = i.full_name;
  organization = i.organization;
  position = i.position;
  nip = i.nip;
  password_hash = hash;
  role = role_user;
  status = account_pending;
  created_at = 0;
}

abbrev pub has_super_admin : List Account → Bool
has_super_admin [] = false
has_super_admin (a ∷ l) = if a.role == role_super_admin then true else has_super_admin l

abbrev pub super_admin : String → String → Account
super_admin u hash = record zero_account {
  email = u;
  display_name = u;
  password_hash = hash;
  role = role_super_admin;
  status = account_active;
}

module _ (pw : Passwords) where
  -- `hRegister`; `none` is a body that does not decode, `salt` what the hash draws.
  unfoldable pub h_register : Draw → String → Option RegisterInput → Server → Server × Response
  h_register d salt none s = (s, write_err 400 "email and an 8+ char password are required")
  h_register d salt (some i) s =
      if i.email == "" || ltb (byte_length i.password) 8
      then (s, write_err 400 "email and an 8+ char password are required")
      else elim (pw.hash salt i.password) [
        | none ↦ (s, write_err 500 "hash")
        | some h ↦
            let (st, made) = create_account (d.id 0) d.now (registration i h) s.st in
            elim made [
              | err e ↦ (record s { st = st }, write_err 409 (error_text e))
              | ok a ↦ (
                record s {
                  st = log (d.id 1) d.now (event "account.register" a.id "" "ok" a.status) st;
                },
                write_json 201 (
                    ("account_id", str a.id)
                    ∷ ("role", str a.role)
                    ∷ ("status", str a.status)
                    ∷ ("message", str "akun dibuat, menunggu persetujuan admin")
                    ∷ []),
              )
            ]
      ]

  -- `issue` is the signer's, `ttl` its time to live in nanoseconds.
  module _ (issue : String → String → String) (ttl : ℕ) where
    abbrev failed : Draw → String → String → Server → Server
    failed d id detail s = record s {
      st = log (d.id 0) d.now (event "auth.login" id "" "fail" detail) s.st;
    }

    -- The gate on the account's status, behind the password.
    unfoldable pub admit : Draw → Account → Server → Server × Response
    admit d a s =
        if a.status == account_pending
        then (
          failed d a.id "pending" s,
          write_json 403 (
              ("error", str "akun menunggu persetujuan admin")
              ∷ ("account_status", str account_pending)
              ∷ []),
        )
        else if a.status == account_disabled
        then (
          failed d a.id "disabled" s,
          write_json 403 (
              ("error", str "akun dinonaktifkan, hubungi admin")
              ∷ ("account_status", str account_disabled)
              ∷ []),
        )
        else (
          record s { st = log (d.id 0) d.now (event "auth.login" a.id "" "ok" "") s.st },
          write_json 200 (
              ("access_token", str (issue a.id a.role))
              ∷ ("token_type", str "Bearer")
              ∷ ("expires_in", num (ttl / 1000000000))
              ∷ []),
        )

    -- `hLogin`; the input is the email and the password.
    unfoldable pub h_login : Draw → Option (String × String) → Server → Server × Response
    h_login d none s = (s, write_err 400 "bad body")
    h_login d (some (email, password)) s = elim (account_by_email email s.st) [
      | err e ↦ (failed d "" "" s, write_err 401 "invalid credentials")
      | ok a ↦
          if not (pw.verify password a.password_hash)
          then (failed d a.id "" s, write_err 401 "invalid credentials")
          else admit d a s
    ]

  -- `ensureSuperAdmin`: `username` and `password` are the configuration's, `generated` the password
  -- of `randToken`; what it prints to the log is left out.
  unfoldable pub ensure_super_admin :
      Ranging → Draw → String → String → String → String → Memory → Memory
  ensure_super_admin r d username password generated salt m =
      let u = trim_space username in
      if u == ""
      then m
      else if has_super_admin (list_accounts r m)
      then m
      else elim (pw.hash salt (if ltb (byte_length password) 8 then generated else password)) [
        | none ↦ m
        | some h ↦ (create_account (d.id 0) d.now (super_admin u h) m).0
      ]
