-- ===== src/Api/Accounts/Directory.antt =====
-- What disabling or deleting an account leaves alone on its way: the accounts, but for the status, and
-- the signatures.
use ttd_elektronik.Prelude.{
  String, Option, none, some, List, [], ◌∷◌, Result, ok, err, Dict, Ranging, ◌≡◌, refl, ap, ◌∙◌,
  arith, get, Option-cases, Bool-cases, inl, inr,
}
use ttd_elektronik.Store.Types.{
  Bytes, Account, Device, Certificate, Signature, Error, not_found, zero_account,
}
use ttd_elektronik.Store.Memory.{Memory}
use ttd_elektronik.Store.Accounts.{account_by_email}
use ttd_elektronik.Store.Devices.{set_device_status}
use ttd_elektronik.Store.Certificates.{certificates_by_account, revoke_certificate}
use ttd_elektronik.Store.Signatures.{append}
use ttd_elektronik.Api.Types.{Draw}
use ttd_elektronik.Api.Server.{Config, Server}
use ttd_elektronik.Api.Accounts.{is_active}
use ttd_elektronik.Api.Accounts.Cascade.{
  Progress, starting, lose_devices, revoke_one, revoke_all, disable_cascade,
}

-- The accounts and the signatures, which the cascade leaves alone.
abbrev pub Directory : Type 0
Directory = Dict Account × Dict String × Dict Signature

abbrev pub directory : Memory → Directory
directory m = (m.accounts, m.by_email, m.signatures)

abbrev find_in : String → Directory → Result Error Account
find_in email (accounts, by_email, signatures) = elim (get by_email email) [
  | none ↦ err not_found
  | some id ↦ elim (get accounts id) [ none ↦ ok zero_account | some b ↦ ok b ]
]

pub directory-account_by_email :
    (email : String) (m n : Memory)
    → directory m ≡ directory n
    → account_by_email email m ≡ account_by_email email n
unfolding account_by_email
directory-account_by_email email m n e = ap (find_in email) e

lose_devices-directory :
    (xs : List Device) (key : String) (m : Memory) → directory (lose_devices xs key m) ≡ directory m
unfolding lose_devices set_device_status
lose_devices-directory [] key m = refl
lose_devices-directory (x ∷ xs) key m =
    lose_devices-directory xs key _ ∙ elim (Option-cases (get m.devices x.id)) [
      | inl missing ↦ ground arith
      | inr (y, found) ↦ ground arith
    ]

module _ (cfg : Config) (r : Ranging) (d : Draw) (id reason : String) where
  revoke_one-directory :
      (c : Certificate) (p : Progress)
      → directory (revoke_one cfg r d id reason c p).store ≡ directory p.store
  unfolding revoke_one append revoke_certificate
  revoke_one-directory c p = lose_devices-directory _ c.device_id _ ∙ ground arith

  revoke_all-directory :
      (cs : List Certificate) (p : Progress)
      → directory (revoke_all cfg r d id reason cs p).store ≡ directory p.store
  unfolding revoke_all
  revoke_all-directory [] p = refl
  revoke_all-directory (c ∷ cs) p = revoke_all-directory cs _ ∙ elim (Bool-cases (is_active c)) [
    | inl on ↦ rw on (revoke_one-directory c p)
    | inr off ↦ rw off
  ]

  pub disable_cascade-directory :
      (published : Option Bytes) (s : Server)
      → directory (disable_cascade cfg r d id reason published s).0.st ≡ directory s.st
  unfolding disable_cascade append
  disable_cascade-directory published s =
      ground (arith, revoke_all-directory (certificates_by_account r id s.st) (starting s.st))
