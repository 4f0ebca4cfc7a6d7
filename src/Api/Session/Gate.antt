-- ===== src/Api/Session/Gate.antt =====
-- Who gets a session: the path of an account from its registration to a login, and its end.
use ttd_elektronik.Prelude.{
  ℕ, ◌/◌, String, true, false, none, some, [], ◌∷◌, Result, ok, err, ◌==◌, byte_length, Ranging,
  ◌≡◌, ◌≢◌, ◌↔◌, refl, ap, ◌∙◌, Dict, arith, eq_iff, eq_refl, get, get-put, Result-cases, inl, inr,
  ◌≤◌,
}
use ttd_elektronik.Store.Types.{
  Account, Error, role_user, account_pending, account_active, account_disabled, not_found,
  zero_account,
}
use ttd_elektronik.Store.Accounts.{create_account, account, account_by_email, set_account_status}
use ttd_elektronik.Store.Signatures.{append}
use ttd_elektronik.Api.Types.{Draw, write_json, str, num, Passwords}
use ttd_elektronik.Api.Server.{Server}
use ttd_elektronik.Api.Accounts.{client_target, h_approve_account}
use ttd_elektronik.Api.Session.{RegisterInput, registration, h_register, h_login, admit}

module _ (pw : Passwords) (issue : String → String → String) (ttl : ℕ) (d : Draw) where
  admit_iff :
      (a : Account) (s : Server)
      → ((admit pw issue ttl d a s).1.code ≡ 200)
        ↔ ((a.status ≢ account_pending) × (a.status ≢ account_disabled))
  unfolding admit
  admit_iff a s = ground (arith, eq_iff a.status account_pending, eq_iff a.status account_disabled)

  pub h_login_iff :
      (email password : String) (s : Server)
      → ((h_login pw issue ttl d (some (email, password)) s).1.code ≡ 200) ↔ (
          (a : Account) × (account_by_email email s.st ≡ ok a)
          × (pw.verify password a.password_hash ≡ true)
          × (a.status ≢ account_pending)
          × (a.status ≢ account_disabled))
  unfolding h_login
  h_login_iff email password s = elim (Result-cases (account_by_email email s.st)) [
    | inr (e, unknown) ↦ ground arith
    | inl (a, found) ↦ (
      λ e. (
        a,
        found,
        ground (arith, admit_iff a s),
        λ w. ground (arith, admit_iff a s),
        λ o. ground (arith, admit_iff a s),
      ),
      λ (b, f, matches, waiting, off). ground (arith, admit_iff b s),
    )
  ]

module _ (pw : Passwords) (issue : String → String → String) (ttl : ℕ) (d : Draw)
    (email password : String) (s : Server) (a : Account) where
  -- The right password of an account that is neither pending nor disabled gives a token for it, and
  -- only the audit log changes.
  pub h_login-admits :
      account_by_email email s.st ≡ ok a
      → pw.verify password a.password_hash ≡ true
      → a.status ≢ account_pending
      → a.status ≢ account_disabled
      → (h_login pw issue ttl d (some (email, password)) s).1
        ≡ write_json 200 (
            ("access_token", str (issue a.id a.role))
            ∷ ("token_type", str "Bearer")
            ∷ ("expires_in", num (ttl / 1000000000))
            ∷ [])
  unfolding h_login admit
  h_login-admits found matches ready enabled =
      ground (arith, eq_iff a.status account_pending, eq_iff a.status account_disabled)

  -- A login changes no account.
  h_login-keeps :
      ((h_login pw issue ttl d (some (email, password)) s).0.st.accounts ≡ s.st.accounts)
      × ((h_login pw issue ttl d (some (email, password)) s).0.st.by_email ≡ s.st.by_email)
  unfolding h_login admit append
  h_login-keeps = elim (Result-cases (account_by_email email s.st)) [
    | inl (b, found) ↦ ground arith
    | inr (e, unknown) ↦ rw (unknown, h_login) (refl, refl)
  ]

  h_login-finds :
      (k : String)
      → (account k (h_login pw issue ttl d (some (email, password)) s).0.st ≡ account k s.st)
        × (account_by_email k (h_login pw issue ttl d (some (email, password)) s).0.st
            ≡ account_by_email k s.st)
  unfolding account account_by_email
  h_login-finds k =
      let (accounts, emails) = h_login-keeps in
      (
        ap (λ (l : Dict Account). elim (get l k) [ none ↦ err not_found | some b ↦ ok b ]) accounts,
        ap (λ l. found l (h_login pw issue ttl d (some (email, password)) s).0.st.by_email) accounts
            ∙ ap (λ l. found s.st.accounts l) emails,
      )
    where
      found : Dict Account → Dict String → Result Error Account
      found l index = elim (get index k) [
        | none ↦ err not_found
        | some id ↦ elim (get l id) [ none ↦ ok zero_account | some b ↦ ok b ]
      ]

  h_login-waiting :
      account_by_email email s.st ≡ ok a
      → pw.verify password a.password_hash ≡ true
      → a.status ≡ account_pending
      → (h_login pw issue ttl d (some (email, password)) s).1.code ≡ 403
  unfolding h_login admit
  h_login-waiting found matches waiting = ground (arith, eq_iff a.status account_pending)

-- What a registration makes of its input.
abbrev newcomer : Draw → RegisterInput → String → Account
newcomer d i h = record (registration i h) { id = d.id 0; created_at = d.now }

module _ (pw : Passwords) (d : Draw) (salt h : String) (i : RegisterInput) (s : Server)
    (hashed : pw.hash salt i.password ≡ some h) (named : i.email ≢ "")
    (long : 8 ≤ byte_length i.password) (free : get s.st.by_email i.email ≡ none) where
  h_register-found :
      account_by_email i.email (h_register pw d salt (some i) s).0.st ≡ ok (newcomer d i h)
  unfolding h_register create_account account_by_email append
  h_register-found = ground (
    arith,
    eq_iff i.email "",
    hashed,
    named,
    long,
    free,
    get-put s.st.by_email i.email i.email (d.id 0),
    eq_refl i.email,
    get-put s.st.accounts (d.id 0) (d.id 0) (newcomer d i h),
    eq_refl (d.id 0),
  )

  h_register-indexed : get (h_register pw d salt (some i) s).0.st.by_email i.email ≡ some (d.id 0)
  unfolding h_register create_account append
  h_register-indexed = ground (
    arith,
    eq_iff i.email "",
    hashed,
    named,
    long,
    free,
    get-put s.st.by_email i.email i.email (d.id 0),
    eq_refl i.email,
  )

  h_register-account : account (d.id 0) (h_register pw d salt (some i) s).0.st ≡ ok (newcomer d i h)
  unfolding h_register create_account account append
  h_register-account = ground (
    arith,
    eq_iff i.email "",
    hashed,
    named,
    long,
    free,
    get-put s.st.accounts (d.id 0) (d.id 0) (newcomer d i h),
    eq_refl (d.id 0),
  )

-- Approving a pending end user makes its account active where its email finds it.
h_approve_account-active :
    (r : Ranging) (d : Draw) (s : Server) (a : Account)
    → account a.id s.st ≡ ok a
    → account_by_email a.email s.st ≡ ok a
    → a.role ≡ role_user
    → a.status ≡ account_pending
    → get s.st.by_email a.email ≡ some a.id
    → account_by_email a.email (h_approve_account r d a.id s).0.st
      ≡ ok (record a { status = account_active })
unfolding h_approve_account client_target set_account_status account account_by_email append
h_approve_account-active r d s a there named user waiting indexed =
    let shut : a.status == account_active ≡ false = rw waiting in
    ground (
      arith,
      there,
      shut,
      user,
      indexed,
      eq_iff a.role role_user,
      get-put s.st.accounts a.id a.id (record a { status = account_active }),
      eq_refl a.id,
    )

module _ (pw : Passwords) (issue : String → String → String) (ttl : ℕ) (r : Ranging)
    (d1 d2 d3 d4 : Draw) (salt h : String) (i : RegisterInput) (s : Server) where
  -- A registration with a fresh, non-empty email and a password of eight bytes that hashes cannot
  -- log in until an admin has approved it, and then gets a token for its account with the role of
  -- an end user.
  pub h_register-lifecycle :
      pw.hash salt i.password ≡ some h
      → i.email ≢ ""
      → 8 ≤ byte_length i.password
      → get s.st.by_email i.email ≡ none
      → let s1 = (h_register pw d1 salt (some i) s).0 in
        let s2 = (h_login pw issue ttl d2 (some (i.email, i.password)) s1).0 in
        let s3 = (h_approve_account r d3 (d1.id 0) s2).0 in
        ((h_login pw issue ttl d2 (some (i.email, i.password)) s1).1.code ≡ 403)
        × ((h_login pw issue ttl d4 (some (i.email, i.password)) s3).1
            ≡ write_json 200 (
                ("access_token", str (issue (d1.id 0) role_user))
                ∷ ("token_type", str "Bearer")
                ∷ ("expires_in", num (ttl / 1000000000))
                ∷ []))
  h_register-lifecycle hashed named long free =
      let a = newcomer d1 i h in
      let s1 = (h_register pw d1 salt (some i) s).0 in
      let found = h_register-found pw d1 salt h i s hashed named long free in
      let there = h_register-account pw d1 salt h i s hashed named long free in
      let index = h_register-indexed pw d1 salt h i s hashed named long free in
      let matches = pw.verify_hash salt i.password h hashed in
      let (accounts, emails) = h_login-keeps pw issue ttl d2 i.email i.password s1 a in
      let known = h_login-finds pw issue ttl d2 i.email i.password s1 a in
      (
        h_login-waiting pw issue ttl d2 i.email i.password s1 a found matches refl,
        h_login-admits pw issue ttl d4 i.email i.password _ (record a { status = account_active })
            (h_approve_account-active r d3 _ a ((known (d1.id 0)).0 ∙ there)
              ((known i.email).1 ∙ found) refl refl (rw emails index))
            matches (λ e. cc ((eq_iff account_active account_pending).1 e))
            (λ e. cc ((eq_iff account_active account_disabled).1 e)),
      )
