-- ===== src/Api/Accounts/Revoked.antt =====
-- What disabling or deleting an account does to certificates: those of the account end, the others
-- stay.
use ttd_elektronik.Prelude.{
  ℕ, String, not, Option, none, some, List, [], ◌∷◌, ok, ◌==◌, if◌then◌else◌, ◌≡◌, ◌≢◌, refl, sym,
  ap, ◌∙◌, arith, eq_iff, get, get-put, In, inl, inr, Bool-cases, Option-cases, Ranging,
}
use ttd_elektronik.Store.Types.{
  Bytes, Account, Certificate, Device, cert_active, cert_revoked, role_user, device_lost,
  account_disabled,
}
use ttd_elektronik.Store.Memory.{Memory}
use ttd_elektronik.Store.Accounts.{account, set_account_status, delete_account}
use ttd_elektronik.Store.Devices.{set_device_status}
use ttd_elektronik.Store.Certificates.{
  certificate, certificates_by_account, revoke_certificate, revoked,
}
use ttd_elektronik.Store.Signatures.{append}
use ttd_elektronik.Store.Search.{certificates_by_account_iff}
use ttd_elektronik.Store.Invariant.{IsConsistent}
use ttd_elektronik.Api.Types.{Draw}
use ttd_elektronik.Api.Server.{Config, Server}
use ttd_elektronik.Api.Accounts.{is_active}
use ttd_elektronik.Api.Accounts.Targets.{client_target-found, set_account_status-IsConsistent}
use ttd_elektronik.Api.Accounts.Cascade.{
  Progress, starting, lose_devices, revoke_one, revoke_all, disable_cascade, h_disable_account,
  h_delete_account,
}

-- What a revocation leaves is not active.
revoked-not_active :
    (reason : String) (now : ℕ) (c t : Certificate)
    → some (revoked reason now c) ≡ some t
    → t.status ≢ cert_active
revoked-not_active reason now c t e live =
    cc ((eq_iff cert_revoked cert_active).1 (status_of e ∙ live))
  where
    status_of : some (revoked reason now c) ≡ some t → cert_revoked ≡ t.status
    status_of e =
        ap {B = String} (λ (o : Option Certificate). elim o [ none ↦ "" | some u ↦ u.status ]) e

lose_devices-certificates :
    (xs : List Device) (device : String) (m : Memory)
    → (lose_devices xs device m).certificates ≡ m.certificates
unfolding lose_devices set_device_status
lose_devices-certificates [] device m = refl
lose_devices-certificates (x ∷ xs) device m = ground (
  arith,
  lose_devices-certificates xs device
      (if x.id == device then (set_device_status x.id device_lost m).0 else m),
)

module _ (cfg : Config) (r : Ranging) (d : Draw) (id reason : String) where
  revoke_one-certificates :
      (c : Certificate) (p : Progress)
      → (revoke_one cfg r d id reason c p).store.certificates
        ≡ (revoke_certificate c.id reason d.now p.store).0.certificates
  unfolding revoke_one append
  revoke_one-certificates c p = lose_devices-certificates _ c.device_id _

  -- A certificate that is active after a revocation was there before, and has another id.
  revoke_one-active :
      (c t : Certificate) (p : Progress) (k : String)
      → get (revoke_one cfg r d id reason c p).store.certificates k ≡ some t
      → t.status ≡ cert_active
      → (get p.store.certificates k ≡ some t) × (c.id ≢ k)
  unfolding revoke_certificate
  revoke_one-active c t p k e live = elim (Option-cases (get p.store.certificates c.id)) [
    | inl missing ↦ ground (arith, revoke_one-certificates c p)
    | inr (old, found) ↦ ground (
      arith,
      revoke_one-certificates c p,
      eq_iff c.id k,
      get-put p.store.certificates c.id k (revoked reason d.now old),
      revoked-not_active reason d.now old t,
    )
  ]

  revoke_one-others :
      (c : Certificate) (p : Progress) (k : String)
      → c.id ≢ k
      → get (revoke_one cfg r d id reason c p).store.certificates k ≡ get p.store.certificates k
  unfolding revoke_certificate
  revoke_one-others c p k apart = elim (Option-cases (get p.store.certificates c.id)) [
    | inl missing ↦ ground (arith, revoke_one-certificates c p)
    | inr (old, found) ↦ ground (
      arith,
      revoke_one-certificates c p,
      eq_iff c.id k,
      get-put p.store.certificates c.id k (revoked reason d.now old),
    )
  ]

  -- The same of the loop, for the certificates that it runs over.
  revoke_all-active :
      (cs : List Certificate) (t : Certificate) (p : Progress) (k : String)
      → get (revoke_all cfg r d id reason cs p).store.certificates k ≡ some t
      → t.status ≡ cert_active
      → get p.store.certificates k ≡ some t
  unfolding revoke_all
  revoke_all-active [] t p k e live = e
  revoke_all-active (c ∷ cs) t p k e live = elim (Bool-cases (c.status == cert_active)) [
    | inl on ↦
        (revoke_one-active c t p k (revoke_all-active cs t _ k (rw (on, revoke_all) at e) live)
          live).0
    | inr off ↦ revoke_all-active cs t p k (rw (off, revoke_all) at e) live
  ]

  revoke_all-ends :
      (cs : List Certificate) (c t : Certificate) (p : Progress)
      → In c cs
      → c.status ≡ cert_active
      → get (revoke_all cfg r d id reason cs p).store.certificates c.id ≡ some t
      → t.status ≢ cert_active
  unfolding revoke_all
  revoke_all-ends [] c t p i on e live = elim i [ ]
  revoke_all-ends (b ∷ cs) c t p (inr i) on e live = revoke_all-ends cs c t _ i on e live
  revoke_all-ends (b ∷ cs) c t p (inl same) on e live = ground (
    arith,
    eq_iff b.status cert_active,
    revoke_all-active cs t (revoke_one cfg r d id reason b p) c.id,
    revoke_one-active b t p c.id,
  )

  -- A certificate that the loop does not run over stays as it is.
  revoke_all-others :
      (cs : List Certificate) (p : Progress) (k : String)
      → ((c : Certificate) → In c cs → c.id ≢ k)
      → get (revoke_all cfg r d id reason cs p).store.certificates k ≡ get p.store.certificates k
  unfolding revoke_all
  revoke_all-others [] p k apart = refl
  revoke_all-others (c ∷ cs) p k apart = ground (
    arith,
    apart c (inl refl),
    revoke_one-others c p k,
    revoke_all-others cs (if not (is_active c) then p else revoke_one cfg r d id reason c p) k
        (λ b i. apart b (inr i)),
  )

  module _ (s : Server) (published : Option Bytes) where
    disable_cascade-certificates :
        (disable_cascade cfg r d id reason published s).0.st.certificates
        ≡ (disable_cascade cfg r d id reason published s).1.store.certificates
    unfolding disable_cascade append
    disable_cascade-certificates = ground arith

    -- No certificate of the account is active after the cascade.
    disable_cascade-ends :
        (t : Certificate)
        → IsConsistent s.st
        → certificate t.id (disable_cascade cfg r d id reason published s).0.st ≡ ok t
        → t.account_id ≡ id
        → t.status ≢ cert_active
    unfolding disable_cascade certificate
    disable_cascade-ends t h e mine live =
        let cs = certificates_by_account r id s.st in
        let later : get (revoke_all cfg r d id reason cs (starting s.st)).store.certificates t.id
            ≡ some t =
          ground (arith, disable_cascade-certificates) in
        let before = revoke_all-active cs t (starting s.st) t.id later live in
        revoke_all-ends cs t t (starting s.st)
          ((certificates_by_account_iff r s.st h id t).1 (rw (before, certificate) refl, mine)) live
          later live

    -- The certificates of other accounts stay as they are.
    disable_cascade-spares :
        (t : Certificate)
        → IsConsistent s.st
        → certificate t.id s.st ≡ ok t
        → t.account_id ≢ id
        → certificate t.id (disable_cascade cfg r d id reason published s).0.st ≡ ok t
    unfolding disable_cascade certificate
    disable_cascade-spares t h e other =
        let apart : (c : Certificate) → In c (certificates_by_account r id s.st) → c.id ≢ t.id =
          λ c i same.
            let (found, mine) = (certificates_by_account_iff r s.st h id c).0 i in
            other (one_id c found mine same) in
        ground (
          arith,
          disable_cascade-certificates,
          revoke_all-others (certificates_by_account r id s.st) (starting s.st) t.id apart,
        )
      where
        one_id :
            (c : Certificate)
            → certificate c.id s.st ≡ ok c
            → c.account_id ≡ id
            → c.id ≡ t.id
            → t.account_id ≡ id
        one_id c found mine same = cc (found, mine, same, e)

module _ (cfg : Config) (r : Ranging) (d : Draw) (published : Option Bytes) (id : String)
    (s : Server) (a : Account) (h : IsConsistent s.st) (known : account id s.st ≡ ok a)
    (user : a.role ≡ role_user) where
  -- In a consistent store, once an end user's account has been disabled, no certificate of it is
  -- active.
  pub h_disable_account-ends :
      (t : Certificate)
      → certificate t.id (h_disable_account cfg r d published id s).0.st ≡ ok t
      → t.account_id ≡ id
      → t.status ≢ cert_active
  unfolding h_disable_account append certificate
  h_disable_account-ends t there mine =
      let (found, same) = client_target-found id s.st a h known user in
      disable_cascade-ends cfg r d a.id "account disabled"
        (record s { st = (set_account_status a.id account_disabled s.st).0 }) published t
        (set_account_status-IsConsistent a.id account_disabled s.st h)
        (rw (found, h_disable_account) at there) (rw (sym same) at mine)

  -- In a consistent store, once an end user's account has been deleted, no certificate of it is
  -- active.
  pub h_delete_account-ends :
      (t : Certificate)
      → certificate t.id (h_delete_account cfg r d published id s).0.st ≡ ok t
      → t.account_id ≡ id
      → t.status ≢ cert_active
  unfolding h_delete_account append certificate delete_account
  h_delete_account-ends t there mine =
      let (found, same) = client_target-found id s.st a h known user in
      disable_cascade-ends cfg r d a.id "account deleted"
        (record s { st = (set_account_status a.id account_disabled s.st).0 }) published t
        (set_account_status-IsConsistent a.id account_disabled s.st h)
        (ground (arith, rw (found, h_delete_account) at there)) (rw (sym same) at mine)

  -- In a consistent store, disabling an end user's account leaves every certificate of another
  -- account as it was.
  pub h_disable_account-spares :
      (t : Certificate)
      → certificate t.id s.st ≡ ok t
      → t.account_id ≢ id
      → certificate t.id (h_disable_account cfg r d published id s).0.st ≡ ok t
  unfolding h_disable_account append certificate set_account_status
  h_disable_account-spares t there other =
      let (found, same) = client_target-found id s.st a h known user in
      rw (found, h_disable_account)
        (disable_cascade-spares cfg r d a.id "account disabled"
          (record s { st = (set_account_status a.id account_disabled s.st).0 }) published t
          (set_account_status-IsConsistent a.id account_disabled s.st h) (ground arith)
          (rw (sym same) at other))
