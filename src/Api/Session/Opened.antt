-- ===== src/Api/Session/Opened.antt =====
-- The session that a login opens: its token passes the guard of the routes.
use ttd_elektronik.Prelude.{
  ℕ, ◌+◌, ◌/◌, ◌<◌, String, ◌&◌, true, some, [], ◌∷◌, ok, ◌≡◌, ◌≢◌, refl, sym, ap, ◌∙◌, arith,
  split_dots,
}
use ttd_elektronik.Store.Types.{Account, account_pending, account_disabled}
use ttd_elektronik.Store.Accounts.{account_by_email}
use ttd_elektronik.Api.Types.{Claims, Draw, Response, Passwords, write_json, str, num}
use ttd_elektronik.Api.Server.{Server}
use ttd_elektronik.Api.Access.{authed}
use ttd_elektronik.Api.Access.Guard.{MayEnter, authed_complete}
use ttd_elektronik.Auth.{Codec, IsFaithful, second, claims_for, issue, parse}
use ttd_elektronik.Auth.Tokens.{parse-issue, issue-split}
use ttd_elektronik.Api.Session.{h_login}
use ttd_elektronik.Api.Session.Gate.{h_login-admits}

module _ (k : Codec) (now ttl : ℕ) (account role : String)
    (faithful : IsFaithful k (claims_for now ttl account role)) where
  issue-nonempty : issue k now ttl account role ≢ ""
  unfolding split_dots
  issue-nonempty e = cc (sym (ap split_dots e) ∙ issue-split k now ttl account role faithful)

  issue-parse :
      (later : ℕ)
      → later / second < (now + ttl) / second
      → parse k later (issue k now ttl account role) ≡ some (claims_for now ttl account role)
  issue-parse later early = ground (arith, parse-issue k now ttl account role faithful later)

module _ (pw : Passwords) (k : Codec) (ttl : ℕ) (d : Draw) (email password : String) (s : Server)
    (a : Account) where
  pub h_login-opens :
      IsFaithful k (claims_for d.now ttl a.id a.role)
      → account_by_email email s.st ≡ ok a
      → pw.verify password a.password_hash ≡ true
      → a.status ≢ account_pending
      → a.status ≢ account_disabled
      → (later : ℕ) (min_role : String) (handler : Claims → Server → Server × Response)
        (s' : Server)
      → later / second < (d.now + ttl) / second
      → MayEnter min_role a.role
      → ((h_login pw (issue k d.now ttl) ttl d (some (email, password)) s).1
          ≡ write_json 200 (
              ("access_token", str (issue k d.now ttl a.id a.role))
              ∷ ("token_type", str "Bearer")
              ∷ ("expires_in", num (ttl / 1000000000))
              ∷ []))
        × (authed (parse k later) min_role ("Bearer " & issue k d.now ttl a.id a.role) handler s'
            ≡ handler (claims_for d.now ttl a.id a.role) s')
  h_login-opens faithful found matches ready enabled later min_role handler s' early may = (
    h_login-admits pw (issue k d.now ttl) ttl d email password s a found matches ready enabled,
    authed_complete (parse k later) min_role ("Bearer " & issue k d.now ttl a.id a.role) handler s'
        (claims_for d.now ttl a.id a.role)
        (
          issue k d.now ttl a.id a.role,
          refl,
          issue-nonempty k d.now ttl a.id a.role faithful,
          issue-parse k d.now ttl a.id a.role faithful later early,
        )
        may,
  )
