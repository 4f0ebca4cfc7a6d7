-- ===== src/Api/Admins/Password.antt =====
-- What the super admin's routes may touch, and in which order a PATCH takes effect.
use ttd_elektronik.Prelude.{
  String, false, Option, some, ok, ◌==◌, ==-false, byte_length, Ranging, ◌≡◌, ◌≢◌, ◌≤◌, ap, arith,
  eq_iff, get-put, get-key,
}
use ttd_elektronik.Store.Types.{
  Account, role_admin, role_super_admin, account_active, account_disabled,
}
use ttd_elektronik.Store.Accounts.{account, set_account_password}
use ttd_elektronik.Store.Signatures.{append}
use ttd_elektronik.Store.Invariant.{IsConsistent}
use ttd_elektronik.Api.Types.{Claims, Draw, Passwords}
use ttd_elektronik.Api.Server.{Server}
use ttd_elektronik.Api.Admins.{
  AdminPatch, patch_password, patch_status, h_update_admin, h_delete_admin,
}

-- A text of eight bytes is not empty.
long-filled : (s : String) → 8 ≤ byte_length s → (s == "") ≡ false
unfolding byte_length
long-filled s long = ==-false s "" (λ e. ground (arith, ap byte_length e))

module _ (pw : Passwords) (r : Ranging) (c : Claims) (d : Draw) (id : String) (s : Server)
    (a : Account) where
  -- Changing or deleting an admin does nothing to an account that is not an admin's, the super
  -- admin's own included.
  pub h_update_admin-guards :
      (salt : String) (input : Option AdminPatch)
      → account id s.st ≡ ok a
      → a.role ≢ role_admin
      → ((h_update_admin pw r c d salt id input s).0 ≡ s) × ((h_delete_admin pw r c d id s).0 ≡ s)
  unfolding h_update_admin h_delete_admin
  h_update_admin-guards salt input e other =
      ground (arith, e, eq_iff a.role role_admin, eq_iff a.role role_super_admin)

  -- In a consistent store, a PATCH of an admin with a password of eight bytes that hashes and a
  -- status that is none of the two, nor empty, is refused with 400, but the password has been
  -- changed by then.
  pub h_update_admin-partial :
      (salt h : String) (p : AdminPatch)
      → IsConsistent s.st
      → account id s.st ≡ ok a
      → a.role ≡ role_admin
      → 8 ≤ byte_length p.password
      → pw.hash salt p.password ≡ some h
      → p.status ≢ ""
      → p.status ≢ account_active
      → p.status ≢ account_disabled
      → ((h_update_admin pw r c d salt id (some p) s).1.code ≡ 400)
        × (account id (h_update_admin pw r c d salt id (some p) s).0.st
            ≡ ok (record a { password_hash = h }))
  unfolding h_update_admin patch_password patch_status set_account_password account append
  h_update_admin-partial salt h p k e admin long hashed some_status on off =
      let same = get-key (λ x. x.id) s.st.accounts id a k.indexed.keyed (ground arith) in
      let plain : a.role == role_super_admin ≡ false = rw admin in
      ground (
        plain,
        long-filled p.password long,
        arith,
        e,
        admin,
        same,
        eq_iff a.role role_admin,
        eq_iff p.status "",
        eq_iff p.status account_active,
        eq_iff p.status account_disabled,
        get-put s.st.accounts a.id id (record a { password_hash = h }),
        eq_iff a.id id,
      )
