-- ===== src/Api/Session/Locked.antt =====
-- A disabled account gets no session.
use ttd_elektronik.Prelude.{
  ℕ, String, Option, some, ok, Ranging, ◌≡◌, ◌≢◌, ◌∙◌, arith, eq_iff, get-put,
}
use ttd_elektronik.Store.Types.{Bytes, Account, role_user, account_disabled}
use ttd_elektronik.Store.Accounts.{account, account_by_email, set_account_status}
use ttd_elektronik.Store.Signatures.{append}
use ttd_elektronik.Store.Invariant.{IsConsistent}
use ttd_elektronik.Api.Types.{Draw, Passwords}
use ttd_elektronik.Api.Server.{Config, Server}
use ttd_elektronik.Api.Accounts.Directory.{directory-account_by_email, disable_cascade-directory}
use ttd_elektronik.Api.Accounts.Targets.{client_target-found}
use ttd_elektronik.Api.Accounts.Cascade.{disable_cascade, h_disable_account}
use ttd_elektronik.Api.Session.{h_login}
use ttd_elektronik.Api.Session.Gate.{h_login_iff}

module _ (cfg : Config) (r : Ranging) (d : Draw) (published : Option Bytes) (id : String)
    (s : Server) (a : Account) (h : IsConsistent s.st) (known : account id s.st ≡ ok a)
    (user : a.role ≡ role_user) where
  set_account_status-found :
      (k : String)
      → k ≡ id
      → account_by_email a.email (set_account_status k account_disabled s.st).0
        ≡ ok (record a { status = account_disabled })
  unfolding set_account_status account_by_email account
  set_account_status-found k same = ground (
    arith,
    known,
    same,
    h.indexed.listed id a,
    eq_iff k id,
    get-put s.st.accounts k id (record a { status = account_disabled }),
  )

  -- The account as a login finds it then.
  h_disable_account-found :
      account_by_email a.email (h_disable_account cfg r d published id s).0.st
      ≡ ok (record a { status = account_disabled })
  unfolding h_disable_account append account_by_email
  h_disable_account-found =
      let (found, same) = client_target-found id s.st a h known user in
      let off = record s { st = (set_account_status a.id account_disabled s.st).0 } in
      rw (found, h_disable_account)
        (directory-account_by_email a.email
            (disable_cascade cfg r d a.id "account disabled" published off).0.st
            (set_account_status a.id account_disabled s.st).0
            (disable_cascade-directory cfg r d a.id "account disabled" published off)
          ∙ set_account_status-found a.id same)

  -- In a consistent store, once an end user's account has been disabled, no login with its email
  -- succeeds, whatever the password.
  pub h_disable_account-locks_out :
      (pw : Passwords) (issue : String → String → String) (ttl : ℕ) (d' : Draw) (password : String)
      → (h_login pw issue ttl d'
          (some (a.email, password))
          (h_disable_account cfg r d published id s).0).1.code
        ≢ 200
  h_disable_account-locks_out pw issue ttl d' password success =
      let (b, there, matches, ready, enabled) =
        (h_login_iff pw issue ttl d' a.email password _).0 success in
      enabled (ground (arith, h_disable_account-found))
