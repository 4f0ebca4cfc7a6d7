-- ===== src/Api/Admins.antt =====
-- accounts.go: the super admin's routes for the accounts of admins.
pub mod Password
use ttd_elektronik.Prelude.{
  ℕ, String, Bool, true, false, not, Option, none, some, List, [], ◌∷◌, Result, ok, err, ◌==◌, ◌&&◌,
  ◌||◌, if◌then◌else◌, ltb, or_else, byte_length, trim_space, Ranging,
}
use ttd_elektronik.Store.Types.{
  Account, zero_account, Error, role_admin, role_super_admin, account_active, account_disabled,
  event,
}
use ttd_elektronik.Store.Memory.{Memory}
use ttd_elektronik.Store.Accounts.{
  create_account, account, list_accounts, set_account_password, set_account_status, delete_account,
}
use ttd_elektronik.Api.Types.{
  Claims, Draw, Object, Response, table, write_json, write_err, log, str, flag, time, Passwords,
  error_text,
}
use ttd_elektronik.Api.Server.{Config, Server}
use ttd_elektronik.Api.Accounts.{account_view, account_or_zero}

abbrev pub new_admin : String → String → Account
new_admin u hash = record zero_account {
  email = u;
  display_name = u;
  role = role_admin;
  status = account_active;
  password_hash = hash;
}

abbrev pub is_admin : Account → Bool
is_admin a = a.role == role_admin || a.role == role_super_admin

-- `hListAdmins`
abbrev roster : String → List Account → List Object
roster me [] = []
roster me (a ∷ l) =
    let rest = roster me l in
    if not (is_admin a)
    then rest
    else (("account_id", str a.id)
        ∷ ("username", str a.email)
        ∷ ("role", str a.role)
        ∷ ("status", str a.status)
        ∷ ("self", flag (a.id == me))
        ∷ ("created_at", time a.created_at)
        ∷ [])
      ∷ rest

unfoldable pub h_list_admins : Ranging → Claims → Server → Server × Response
h_list_admins r c s =
    (s, record { code = 200; body = table "admins" (roster c.sub (list_accounts r s.st)) })

-- What a PATCH of an admin asks; "" where a field is missing.
pub record AdminPatch : Type 0 where
  pub password : String
  pub status : String

module _ (pw : Passwords) (r : Ranging) where
  -- `hCreateAdmin`; the input is the username, the email and the password.
  unfoldable pub h_create_admin :
      Claims → Draw → String → Option (String × String × String) → Server → Server × Response
  h_create_admin c d salt none s = (s, write_err 400 "bad body")
  h_create_admin c d salt (some (username, email, password)) s =
      let u = or_else (trim_space username) (trim_space email) in
      if u == "" || ltb (byte_length password) 8
      then (s, write_err 400 "username dan kata sandi minimal 8 karakter wajib diisi")
      else elim (pw.hash salt password) [
        | none ↦ (s, write_err 500 "hash")
        | some h ↦
            let (st, made) = create_account (d.id 0) d.now (new_admin u h) s.st in
            elim made [
              | err e ↦ (record s { st = st }, write_err 409 (error_text e))
              | ok a ↦
                  let st' = log (d.id 1) d.now (event "admin.create" a.id "" "ok" c.sub) st in
                  (record s { st = st' }, write_json 201 (account_view r a st'))
            ]
      ]

  -- The part of `hUpdateAdmin` that resets the password, or the response that ends it.
  unfoldable pub patch_password :
      Claims → Draw → String → String → String → Memory → Memory × Result Response (Unit {0})
  patch_password c d salt id password m =
      if password == ""
      then (m, ok tt)
      else if ltb (byte_length password) 8
      then (m, err (write_err 400 "kata sandi minimal 8 karakter"))
      else elim (pw.hash salt password) [
        | none ↦ (m, err (write_err 500 "hash"))
        | some h ↦
            let (m', set) = set_account_password id h m in
            elim set [
              | err e ↦ (m', err (write_err 500 "update"))
              | ok u ↦ (log (d.id 0) d.now (event "admin.password" id "" "ok" c.sub) m', ok tt)
            ]
      ]

  -- The switch on the status.
  unfoldable pub patch_status :
      Draw → String → String → Memory → Memory × Result Response (Unit {0})
  patch_status d id status m =
      if status == account_active || status == account_disabled
      then (let (m', set) = set_account_status id status m in
          elim set [
            | err e ↦ (m', err (write_err 500 "update"))
            | ok u ↦ (log (d.id 1) d.now (event "admin.status" id "" "ok" status) m', ok tt)
          ])
      else if status == ""
      then (m, ok tt)
      else (m, err (write_err 400 "status harus active atau disabled"))

  abbrev patched :
      Draw → Account → String → Memory × Result Response (Unit {0}) → Server → Server × Response
  patched d a status (m, err refused) s = (record s { st = m }, refused)
  patched d a status (m, ok u) s =
      let (m', set) = patch_status d a.id status m in
      elim set [
        | err refused ↦ (record s { st = m' }, refused)
        | ok v ↦
            (record s { st = m' }, write_json 200 (account_view r (account_or_zero a.id m') m'))
      ]

  -- `hUpdateAdmin`; `none` is a body that does not decode.
  unfoldable pub h_update_admin :
      Claims → Draw → String → String → Option AdminPatch → Server → Server × Response
  h_update_admin c d salt id input s = elim (account id s.st) [
    | err e ↦ (s, write_err 404 "admin tidak ditemukan")
    | ok a ↦
        if not (is_admin a)
        then (s, write_err 404 "admin tidak ditemukan")
        else if a.role == role_super_admin
        then (s, write_err 403 "akun super admin tidak bisa diubah dari sini")
        else elim input [
          | none ↦ (s, write_err 400 "bad body")
          | some p ↦ patched d a p.status (patch_password c d salt a.id p.password s.st) s
        ]
  ]

  -- `hDeleteAdmin`
  unfoldable pub h_delete_admin : Claims → Draw → String → Server → Server × Response
  h_delete_admin c d id s = elim (account id s.st) [
    | err e ↦ (s, write_err 404 "admin tidak ditemukan")
    | ok a ↦
        if not (a.role == role_admin)
        then (s, write_err 404 "admin tidak ditemukan")
        else let (m, gone) = delete_account a.id s.st in
          elim gone [
            | err e ↦
                let m' = (set_account_status a.id account_disabled m).0 in
                (
                  record s {
                    st = log (d.id 0) d.now (event "admin.delete" a.id "" "tombstone" "") m';
                  },
                  write_json 200 (
                      ("account_id", str a.id)
                      ∷ ("status", str account_disabled)
                      ∷ ("note", str "akun masih dirujuk; dinonaktifkan permanen alih-alih dihapus")
                      ∷ []),
                )
            | ok u ↦ (
              record s { st = log (d.id 0) d.now (event "admin.delete" a.id "" "ok" c.sub) m },
              write_json 200 (("account_id", str a.id) ∷ ("status", str "deleted") ∷ []),
            )
          ]
  ]
