-- ===== src/Tests/Sessions.antt =====
-- Examples for the results on sessions and on the accounts of admins.
use ttd_elektronik.Prelude.{
  ℕ, String, ◌*◌, ◌<◌, ◌&◌, inr, dotless, split_dots, ◌/◌, true, none, some, [], ◌∷◌, get, ◌≡◌, ◌≢◌,
  ◌↔◌, refl, in_order, ok, arith, eq_iff, byte_length,
}
use ttd_elektronik.Store.Types.{
  Account, role_user, role_admin, role_super_admin, account_pending, account_active,
  account_disabled,
}
use ttd_elektronik.Store.Accounts.{account, account_by_email}
use ttd_elektronik.Api.Types.{Claims, Response, write_json, str, num}
use ttd_elektronik.Api.Server.{Server}
use ttd_elektronik.Api.Accounts.{h_approve_account}
use ttd_elektronik.Api.Accounts.Cascade.{h_disable_account}
use ttd_elektronik.Api.Session.{RegisterInput, h_register, h_login}
use ttd_elektronik.Api.Session.Gate.{h_register-lifecycle, h_login_iff}
use ttd_elektronik.Api.Session.Locked.{h_disable_account-locks_out}
use ttd_elektronik.Auth.{Codec, IsFaithful, issue, parse, second}
use ttd_elektronik.Auth.Tokens.{parse_sound}
use ttd_elektronik.Api.Access.{authed}
use ttd_elektronik.Api.Session.Opened.{h_login-opens}
use ttd_elektronik.Api.Admins.{AdminPatch, h_update_admin}
use ttd_elektronik.Api.Admins.Password.{h_update_admin-partial}
use ttd_elektronik.Tests.World.{
  world, world-IsConsistent, sari, budi, server, draw, claims, plain, config,
}

abbrev token : String → String → String
token id role = role

abbrev newcomer : RegisterInput
newcomer = record {
  email = "ani@x";
  password = "panjang88";
  display_name = "";
  full_name = "Ani";
  organization = "";
  position = "";
  nip = "";
}

abbrev registered : Server
registered = (h_register plain draw "s" (some newcomer) server).0

abbrev tried : Server
tried = (h_login plain token 900 draw (some ("ani@x", "panjang88")) registered).0

abbrev approved : Server
approved = (h_approve_account in_order draw "r0" tried).0

h_register-lifecycle_example :
    ((h_login plain token 900 draw (some ("ani@x", "panjang88")) registered).1.code ≡ 403)
    × ((h_login plain token 900 draw (some ("ani@x", "panjang88")) approved).1
        ≡ write_json 200 (
            ("access_token", str (token "r0" role_user))
            ∷ ("token_type", str "Bearer")
            ∷ ("expires_in", num (900 / 1000000000))
            ∷ []))
unfolding get byte_length
h_register-lifecycle_example =
    h_register-lifecycle plain token 900 in_order draw draw draw draw "s" "panjang88" newcomer
      server refl (λ e. cc e) (omega arith) refl

h_login_iff_example :
    ((h_login plain token 900 draw (some ("sari@x", "salah")) server).1.code ≡ 200) ↔ (
      (a : Account) × (account_by_email "sari@x" world ≡ ok a)
      × (plain.verify "salah" a.password_hash ≡ true)
      × (a.status ≢ account_pending)
      × (a.status ≢ account_disabled))
h_login_iff_example = h_login_iff plain token 900 draw "sari@x" "salah" server

h_disable_account-locks_out_example :
    (h_login plain token 900 draw
      (some ("sari@x", "rahasia1"))
      (h_disable_account config in_order draw none "a1" server).0).1.code
    ≢ 200
unfolding account get
h_disable_account-locks_out_example =
    h_disable_account-locks_out config in_order draw none "a1" server sari world-IsConsistent refl
      refl plain token 900 draw "rahasia1"

abbrev patch : AdminPatch
patch = record { password = "barubaru"; status = "aktif" }

h_update_admin-partial_example :
    ((h_update_admin plain in_order claims draw "s" "a2" (some patch) server).1.code ≡ 400)
    × (account "a2" (h_update_admin plain in_order claims draw "s" "a2" (some patch) server).0.st
        ≡ ok (record budi { password_hash = "barubaru" }))
unfolding account get byte_length
h_update_admin-partial_example =
    h_update_admin-partial plain in_order claims draw "a2" server budi "s" "barubaru" patch
      world-IsConsistent refl refl (omega arith) refl (λ e. cc e)
      (λ e. cc ((eq_iff "aktif" account_active).1 e))
      (λ e. cc ((eq_iff "aktif" account_disabled).1 e))

-- A codec for the claims of one account.
abbrev opened : Claims
opened = record { sub = "a1"; role = role_user; exp = 900; iat = 0 }

abbrev codec : Codec
codec = record { header = "h"; encode = λ c. "p"; decode = λ s. some opened; mac = λ msg. "m" }

abbrev lifetime : ℕ
lifetime = 900 * 1000000000

codec-IsFaithful : IsFaithful codec opened
unfolding dotless
codec-IsFaithful = record {
  header_dotless = refl;
  encode_dotless = refl;
  mac_dotless = refl;
  decode_encode = refl;
}

abbrev log_out : Claims → Server → Server × Response
log_out c s = (s, write_json 200 (("sub", str c.sub) ∷ []))

h_login-opens_example :
    ((h_login plain (issue codec 10 lifetime) lifetime draw (some ("sari@x", "rahasia1")) server).1
      ≡ write_json 200 (
          ("access_token", str (issue codec 10 lifetime "a1" role_user))
          ∷ ("token_type", str "Bearer")
          ∷ ("expires_in", num (lifetime / 1000000000))
          ∷ []))
    × (authed
          (parse codec 5000000000)
          role_user
          ("Bearer " & issue codec 10 lifetime "a1" role_user)
          log_out
          server
        ≡ log_out opened server)
unfolding account_by_email get
h_login-opens_example =
    h_login-opens plain codec lifetime draw "sari@x" "rahasia1" server sari codec-IsFaithful refl
      refl (λ e. cc ((eq_iff account_active account_pending).1 e))
      (λ e. cc ((eq_iff account_active account_disabled).1 e)) 5000000000 role_user log_out server
      (omega arith)
      (inr (
        inr (
          λ e. cc ((eq_iff role_user role_admin).1 e),
          λ e. cc ((eq_iff role_user role_super_admin).1 e),
        )))

parse_sound_example :
    (header : String) × (payload : String) × (split_dots "h.p.m"
      ≡ header ∷ payload ∷ codec.mac (header & "." & payload) ∷ [])
    × (codec.decode payload ≡ some opened)
    × (5000000000 / second < 900)
unfolding parse split_dots
parse_sound_example = parse_sound codec 5000000000 "h.p.m" opened refl
