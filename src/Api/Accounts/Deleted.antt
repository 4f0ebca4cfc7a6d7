-- ===== src/Api/Accounts/Deleted.antt =====
-- What deleting an account leaves.
use ttd_elektronik.Prelude.{
  String, Option, none, some, ok, err, Ranging, ◌≡◌, refl, sym, ap, ◌∙◌, arith, eq_refl, get,
  get-remove, Result-cases, Option-cases, inl, inr,
}
use ttd_elektronik.Store.Types.{Bytes, Account, role_user, account_disabled, not_found}
use ttd_elektronik.Store.Memory.{Memory}
use ttd_elektronik.Store.Accounts.{account, set_account_status, delete_account}
use ttd_elektronik.Store.Signatures.{append}
use ttd_elektronik.Store.Invariant.{IsConsistent}
use ttd_elektronik.Api.Types.{Draw}
use ttd_elektronik.Api.Server.{Config, Server}
use ttd_elektronik.Api.Accounts.{client_target}
use ttd_elektronik.Api.Accounts.Directory.{Directory, directory, disable_cascade-directory}
use ttd_elektronik.Api.Accounts.Targets.{client_target-found}
use ttd_elektronik.Api.Accounts.Cascade.{disable_cascade, h_delete_account}

delete_account-gone :
    (k : String) (m : Memory)
    → (account k (delete_account k m).0 ≡ err not_found)
      × ((delete_account k m).0.signatures ≡ m.signatures)
unfolding delete_account account
delete_account-gone k m = elim (Option-cases (get m.accounts k)) [
  | inl missing ↦ ground arith
  | inr (a, found) ↦ ground (arith, get-remove m.accounts k k, eq_refl k)
]

-- The deletion is the last thing that touches the accounts and the signatures.
module _ (cfg : Config) (r : Ranging) (d : Draw) (published : Option Bytes) (id : String)
    (s : Server) (a : Account) where
  abbrev cascaded : Memory
  cascaded =
      (disable_cascade cfg r d a.id "account deleted" published
        (record s { st = (set_account_status a.id account_disabled s.st).0 })).0.st

  h_delete_account-directory :
      client_target id s.st ≡ ok a
      → directory (h_delete_account cfg r d published id s).0.st
        ≡ directory (delete_account a.id cascaded).0
  unfolding h_delete_account append
  h_delete_account-directory found =
      rw (found, h_delete_account)
        (elim (Result-cases (delete_account a.id cascaded).1) [
          | inl (u, went) ↦ rw went refl
          | inr (e, stayed) ↦ rw stayed refl
        ])

-- In a consistent store, an end user's account is gone after its deletion, whatever refers to it,
-- and all signatures, its own included, are still there as they were.
pub h_delete_account-dangling :
    (cfg : Config) (r : Ranging) (d : Draw) (published : Option Bytes) (id : String) (s : Server)
    (a : Account)
    → IsConsistent s.st
    → account id s.st ≡ ok a
    → a.role ≡ role_user
    → (account id (h_delete_account cfg r d published id s).0.st ≡ err not_found)
      × ((h_delete_account cfg r d published id s).0.st.signatures ≡ s.st.signatures)
unfolding set_account_status account
h_delete_account-dangling cfg r d published id s a h known user =
    let (found, same) = client_target-found id s.st a h known user in
    let off = record s { st = (set_account_status a.id account_disabled s.st).0 } in
    let kept = disable_cascade-directory cfg r d a.id "account deleted" published off in
    let (gone, signatures) = delete_account-gone a.id (cascaded cfg r d published id s a) in
    let last = h_delete_account-directory cfg r d published id s a found in
    (
      ap (λ (x : Directory). elim (get x.0 id) [ none ↦ err not_found | some b ↦ ok b ]) last
          ∙ rw (sym same) gone,
      ap (λ (x : Directory). x.2) last
          ∙ signatures
          ∙ ap (λ (x : Directory). x.2) kept
          ∙ same_signatures,
    )
  where
    same_signatures : (set_account_status a.id account_disabled s.st).0.signatures ≡ s.st.signatures
    same_signatures = elim (Option-cases (get s.st.accounts a.id)) [
      | inl missing ↦ ground arith
      | inr (b, there) ↦ ground arith
    ]
