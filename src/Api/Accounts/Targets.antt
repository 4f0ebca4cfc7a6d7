-- ===== src/Api/Accounts/Targets.antt =====
-- Which accounts the routes of accounts.go reach.
use ttd_elektronik.Prelude.{
  String, Option, ok, ◌≡◌, ◌≢◌, refl, inl, inr, arith, eq_iff, get-key, Result-cases, Ranging,
}
use ttd_elektronik.Store.Types.{Bytes, Account, role_user}
use ttd_elektronik.Store.Memory.{Memory}
use ttd_elektronik.Store.Accounts.{account, set_account_status}
use ttd_elektronik.Store.Ops.{apply, Op}
use ttd_elektronik.Store.Invariant.{IsConsistent}
use ttd_elektronik.Store.Invariant.Preserved.{apply-IsConsistent}
use ttd_elektronik.Api.Types.{Draw}
use ttd_elektronik.Api.Server.{Config, Server}
use ttd_elektronik.Api.Accounts.{
  client_target, h_approve_account, h_enable_account, h_update_account,
}
use ttd_elektronik.Api.Accounts.Cascade.{h_disable_account, h_delete_account}

-- An end user's account is reached, under its own id.
pub client_target-found :
    (id : String) (m : Memory) (a : Account)
    → IsConsistent m
    → account id m ≡ ok a
    → a.role ≡ role_user
    → (client_target id m ≡ ok a) × (a.id ≡ id)
unfolding client_target account
client_target-found id m a h e user =
    ground (arith, eq_iff a.role role_user, get-key (λ x. x.id) m.accounts id a h.indexed.keyed)

client_target-user :
    (id : String) (m : Memory) (a : Account)
    → client_target id m ≡ ok a
    → (account id m ≡ ok a) × (a.role ≡ role_user)
unfolding client_target
client_target-user id m a e = ground (arith, eq_iff a.role role_user)

-- Setting an account's status keeps the store consistent.
pub set_account_status-IsConsistent :
    (id status : String) (m : Memory)
    → IsConsistent m
    → IsConsistent (set_account_status id status m).0
unfolding apply
set_account_status-IsConsistent id status m h =
    apply-IsConsistent m h (Op.set_account_status id status) tt

module _ (cfg : Config) (r : Ranging) (d : Draw) (published : Option Bytes) (id : String)
    (input : Option (String × String)) (s : Server) (a : Account) where
  -- The routes for end users leave the whole state alone where the account is an admin's.
  pub client_target-guards :
      account id s.st ≡ ok a
      → a.role ≢ role_user
      → ((h_approve_account r d id s).0 ≡ s)
        × ((h_enable_account r d id s).0 ≡ s)
        × ((h_update_account r d id input s).0 ≡ s)
        × ((h_disable_account cfg r d published id s).0 ≡ s)
        × ((h_delete_account cfg r d published id s).0 ≡ s)
  unfolding h_approve_account h_enable_account h_update_account h_disable_account h_delete_account
  client_target-guards e other = elim (Result-cases (client_target id s.st)) [
    | inl (b, found) ↦ ground (arith, client_target-user id s.st b)
    | inr (refused, f) ↦
        rw
          (
            f, h_approve_account, h_enable_account, h_update_account, h_disable_account,
            h_delete_account,
          )
          (refl, refl, refl, refl, refl)
  ]
