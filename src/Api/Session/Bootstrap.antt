-- ===== src/Api/Session/Bootstrap.antt =====
-- The first super admin is made once.
use ttd_elektronik.Prelude.{
  String, true, false, none, some, List, [], ◌∷◌, if◌then◌else◌, ltb, byte_length, trim_space,
  Ranging, ◌≡◌, ◌≢◌, refl, arith, eq_iff, eq_refl, get, get-put, get-In, In, sort_by-In,
}
use ttd_elektronik.Store.Types.{Account, role_super_admin}
use ttd_elektronik.Store.Memory.{Memory}
use ttd_elektronik.Store.Accounts.{account_before, list_accounts, create_account}
use ttd_elektronik.Api.Types.{Draw, Passwords}
use ttd_elektronik.Api.Session.{has_super_admin, super_admin, ensure_super_admin}

has_super_admin-In :
    (a : Account) (l : List Account) → In a l → a.role ≡ role_super_admin → has_super_admin l ≡ true
has_super_admin-In a [] i e = elim i [ ]
has_super_admin-In a (b ∷ l) i e =
    ground (arith, eq_iff b.role role_super_admin, has_super_admin-In a l)

-- An account with the role is seen in the list, wherever it stands.
pub list_accounts-super_admin :
    (r : Ranging) (m : Memory) (k : String) (a : Account)
    → get m.accounts k ≡ some a
    → a.role ≡ role_super_admin
    → has_super_admin (list_accounts r m) ≡ true
unfolding list_accounts
list_accounts-super_admin r m k a e role =
    has_super_admin-In a _
      (sort_by-In account_before a _
        (r.range_visits Account a _ (get-In (λ x. x.id) m.accounts k a e)))
      role

module _ (pw : Passwords) (r : Ranging) (d : Draw) (username password generated salt h : String)
    (m : Memory) where
  abbrev after : Memory
  after = ensure_super_admin pw r d username password generated salt m

  ensure_super_admin-made :
      trim_space username ≢ ""
      → pw.hash salt (if ltb (byte_length password) 8 then generated else password) ≡ some h
      → get m.by_email (trim_space username) ≡ none
      → has_super_admin (list_accounts r m) ≡ false
      → has_super_admin (list_accounts r after) ≡ true
  unfolding ensure_super_admin create_account
  ensure_super_admin-made named hashed free absent =
      let u = trim_space username in
      let a' = record (super_admin u h) { id = d.id 0; created_at = d.now } in
      list_accounts-super_admin r after (d.id 0) a'
        (ground (
          arith,
          eq_iff u "",
          hashed,
          free,
          absent,
          get-put m.accounts (d.id 0) (d.id 0) a',
          eq_refl (d.id 0),
        ))
        refl

module _ (pw : Passwords) (r : Ranging) (d : Draw) (username password generated salt : String)
    (m : Memory) where
  ensure_super_admin-idle :
      has_super_admin (list_accounts r m) ≡ true
      → ensure_super_admin pw r d username password generated salt m ≡ m
  unfolding ensure_super_admin
  ensure_super_admin-idle there = ground (arith, there)

module _ (pw : Passwords) (r : Ranging) (d : Draw) (username password generated salt h : String)
    (m : Memory) where
  -- Where the configured name is not blank, its email is free and the password hashes, a start
  -- leaves a super admin whether there was one or not, and every later start, whatever it is
  -- configured with, changes nothing.
  pub ensure_super_admin-once :
      trim_space username ≢ ""
      → pw.hash salt (if ltb (byte_length password) 8 then generated else password) ≡ some h
      → get m.by_email (trim_space username) ≡ none
      → (d' : Draw) (username' password' generated' salt' : String)
      → (has_super_admin
            (list_accounts r (ensure_super_admin pw r d username password generated salt m))
          ≡ true)
        × (ensure_super_admin pw r d' username' password' generated' salt'
              (ensure_super_admin pw r d username password generated salt m)
            ≡ ensure_super_admin pw r d username password generated salt m)
  ensure_super_admin-once named hashed free d' username' password' generated' salt' =
      let there : has_super_admin
            (list_accounts r (ensure_super_admin pw r d username password generated salt m))
          ≡ true =
        ground (
          arith,
          ensure_super_admin-made pw r d username password generated salt h m,
          ensure_super_admin-idle pw r d username password generated salt m,
        ) in
      (there, ensure_super_admin-idle pw r d' username' password' generated' salt' _ there)
