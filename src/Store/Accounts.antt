-- ===== src/Store/Accounts.antt =====
-- memory.go: accounts, and the index of their email addresses.
use ttd_elektronik.Prelude.{
  ℕ, String, Bool, none, some, List, get, put, remove, values, Result, ok, err, ltb, or_else,
  Ranging, sort_by,
}
use ttd_elektronik.Store.Types.{
  Account, zero_account, Error, not_found, email_taken, role_user, account_active,
}
use ttd_elektronik.Store.Memory.{Memory}

unfoldable pub create_account : String → ℕ → Account → Memory → Memory × Result Error Account
create_account fresh now a m = elim (get m.by_email a.email) [
  | some _ ↦ (m, err email_taken)
  | none ↦
      let a' = record a {
        id = or_else a.id fresh;
        role = or_else a.role role_user;
        status = or_else a.status account_active;
        created_at = now;
      } in
      (
        record m { accounts = put m.accounts a'.id a'; by_email = put m.by_email a'.email a'.id },
        ok a',
      )
]

abbrev pub account_before : Account → Account → Bool
account_before a b = ltb a.created_at b.created_at

unfoldable pub list_accounts : Ranging → Memory → List Account
list_accounts r m = sort_by account_before (r.range Account (values m.accounts))

-- `a, ok := m.accounts[id]; …; m.accounts[id] = a`
abbrev pub update_account : String → (Account → Account) → Memory → Memory × Result Error (Unit {0})
update_account id change m = elim (get m.accounts id) [
  | none ↦ (m, err not_found)
  | some a ↦ (record m { accounts = put m.accounts id (change a) }, ok tt)
]

unfoldable pub set_account_status : String → String → Memory → Memory × Result Error (Unit {0})
set_account_status id status = update_account id (λ a. record a { status = status })

unfoldable pub update_account_profile :
    String → String → String → Memory → Memory × Result Error (Unit {0})
update_account_profile id full_name org =
    update_account id (λ a. record a { full_name = full_name; organization = org })

unfoldable pub set_account_password : String → String → Memory → Memory × Result Error (Unit {0})
set_account_password id hash = update_account id (λ a. record a { password_hash = hash })

unfoldable pub delete_account : String → Memory → Memory × Result Error (Unit {0})
delete_account id m = elim (get m.accounts id) [
  | none ↦ (m, err not_found)
  | some a ↦
      (record m { accounts = remove m.accounts id; by_email = remove m.by_email a.email }, ok tt)
]

-- `m.accounts[id]` without a test gives the zero value where the key is missing.
unfoldable pub account_by_email : String → Memory → Result Error Account
account_by_email email m = elim (get m.by_email email) [
  | none ↦ err not_found
  | some id ↦ elim (get m.accounts id) [ none ↦ ok zero_account | some a ↦ ok a ]
]

unfoldable pub account : String → Memory → Result Error Account
account id m = elim (get m.accounts id) [ none ↦ err not_found | some a ↦ ok a ]
