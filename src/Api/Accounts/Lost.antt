-- ===== src/Api/Accounts/Lost.antt =====
-- What disabling an account does to the devices that held its active certificates.
use ttd_elektronik.Prelude.{
  String, Option, some, List, [], ◌∷◌, ok, ◌==◌, ◌≡◌, refl, sym, ap, ◌∙◌, arith, eq_iff, get,
  get-put, get-In, In, keep-In, sort_by-In, inl, inr, ◌⊎◌, Option-cases, Ranging,
}
use ttd_elektronik.Store.Types.{
  Bytes, Account, Certificate, Device, cert_active, device_lost, role_user, account_disabled,
}
use ttd_elektronik.Store.Memory.{Memory}
use ttd_elektronik.Store.Accounts.{account, set_account_status}
use ttd_elektronik.Store.Devices.{device, device_before, devices_by_account, set_device_status}
use ttd_elektronik.Store.Certificates.{certificate, certificates_by_account, revoke_certificate}
use ttd_elektronik.Store.Signatures.{append}
use ttd_elektronik.Store.Search.{certificates_by_account_iff}
use ttd_elektronik.Store.Invariant.{IsConsistent}
use ttd_elektronik.Api.Types.{Draw}
use ttd_elektronik.Api.Server.{Config, Server}
use ttd_elektronik.Api.Accounts.Targets.{client_target-found, set_account_status-IsConsistent}
use ttd_elektronik.Api.Accounts.Cascade.{
  Progress, starting, lose_devices, revoke_one, revoke_all, disable_cascade, h_disable_account,
}

abbrev lost : Device → Device
lost x = record x { status = device_lost }

-- A device that is lost stays so, and the others stay or get lost.
abbrev Loses : Memory → Memory → String → Device → Type 0
Loses m n k x = (get n.devices k ≡ some x) ⊎ (get n.devices k ≡ some (lost x))

module _ (k : String) (x : Device) where
  lose_devices-Loses :
      (xs : List Device) (key : String) (m : Memory)
      → get m.devices k ≡ some x ⊎ (get m.devices k ≡ some (lost x))
      → Loses m (lose_devices xs key m) k x
  unfolding lose_devices set_device_status
  lose_devices-Loses [] key m e = e
  lose_devices-Loses (y ∷ ys) key m e =
      lose_devices-Loses ys key _ (elim (Option-cases (get m.devices y.id)) [
        | inl missing ↦ ground arith
        | inr (z, found) ↦
            ground (arith, eq_iff y.id key, eq_iff y.id k, get-put m.devices y.id k (lost z))
      ])

module _ (k : String) (x : Device) where
  lose_devices-one :
      (z : Device) (m : Memory)
      → z.id ≡ k
      → Loses m m k x
      → get (lose_devices (z ∷ []) k m).devices k ≡ some (lost x)
  unfolding lose_devices set_device_status
  lose_devices-one z m same (inl e) =
      ground (arith, same, e, eq_iff z.id k, get-put m.devices z.id k (lost x), rw (sym same) at e)
  lose_devices-one z m same (inr e) =
      ground (arith, same, e, eq_iff z.id k, get-put m.devices z.id k (lost x), rw (sym same) at e)

  lose_devices-lost :
      (xs : List Device) (y : Device) (m : Memory)
      → In y xs
      → y.id ≡ k
      → Loses m m k x
      → get (lose_devices xs k m).devices k ≡ some (lost x)
  unfolding lose_devices set_device_status
  lose_devices-lost [] y m i same e = elim i [ ]
  lose_devices-lost (z ∷ zs) y m (inr i) same e =
      lose_devices-lost zs y _ i same (ground (arith, lose_devices-Loses k x (z ∷ []) k m e))
  lose_devices-lost (z ∷ zs) y m (inl hit) same e =
      let one = lose_devices-one z m (ap (λ (w : Device). w.id) (sym hit) ∙ same) e in
      elim (lose_devices-Loses k (lost x) zs k _ (inl one)) [ inl f ↦ f | inr f ↦ f ]

devices_by_account-In :
    (r : Ranging) (id k : String) (m : Memory) (x : Device)
    → get m.devices k ≡ some x
    → x.account_id ≡ id
    → In x (devices_by_account r id m)
unfolding devices_by_account
devices_by_account-In r id k m x e mine = sort_by-In device_before x _ (
    keep-In (λ y. y.account_id == id) x _
      (r.range_visits Device x _ (get-In (λ z. z.id) m.devices k x e)) ((eq_iff _ _).1 mine))

module _ (cfg : Config) (r : Ranging) (d : Draw) (id reason k : String) (x : Device) where
  revoke_one-Loses :
      (c : Certificate) (p : Progress)
      → Loses p.store p.store k x
      → Loses p.store (revoke_one cfg r d id reason c p).store k x
  unfolding revoke_one append revoke_certificate
  revoke_one-Loses c p e = lose_devices-Loses k x _ c.device_id _ (ground arith)

  revoke_all-Loses :
      (cs : List Certificate) (p : Progress)
      → Loses p.store p.store k x
      → Loses p.store (revoke_all cfg r d id reason cs p).store k x
  unfolding revoke_all
  revoke_all-Loses [] p e = e
  revoke_all-Loses (c ∷ cs) p e = revoke_all-Loses cs _ (ground (arith, revoke_one-Loses c p e))

  -- The device of a revoked certificate gets lost.
  revoke_one-lost :
      (c : Certificate) (p : Progress)
      → x.id ≡ k
      → x.account_id ≡ id
      → c.device_id ≡ k
      → Loses p.store p.store k x
      → get (revoke_one cfg r d id reason c p).store.devices k ≡ some (lost x)
  unfolding revoke_one append revoke_certificate
  revoke_one-lost c p named mine held (inl e) = rw held (
      lose_devices-lost k x _ x _ (devices_by_account-In r id k _ x (ground (arith, e)) mine) named
        (inl (ground (arith, e))))
  revoke_one-lost c p named mine held (inr e) = rw held (
      lose_devices-lost k x _ (lost x) _
        (devices_by_account-In r id k _ (lost x) (ground (arith, e)) mine) named
        (inr (ground (arith, e))))

module _ (cfg : Config) (r : Ranging) (d : Draw) (id reason k : String) (x : Device)
    (named : x.id ≡ k) (mine : x.account_id ≡ id) where
  revoke_all-lost :
      (cs : List Certificate) (c : Certificate) (p : Progress)
      → In c cs
      → c.status ≡ cert_active
      → c.device_id ≡ k
      → Loses p.store p.store k x
      → get (revoke_all cfg r d id reason cs p).store.devices k ≡ some (lost x)
  unfolding revoke_all
  revoke_all-lost [] c p i on held e = elim i [ ]
  revoke_all-lost (b ∷ cs) c p (inr i) on held e =
      revoke_all-lost cs c _ i on held
        (ground (arith, revoke_one-Loses cfg r d id reason k x b p e))
  revoke_all-lost (b ∷ cs) c p (inl same) on held e =
      let one =
        revoke_one-lost cfg r d id reason k x b p named mine
          (ap (λ (t : Certificate). t.device_id) (sym same) ∙ held) e in
      let still : Loses (revoke_one cfg r d id reason b p).store
          (revoke_all cfg r d id reason cs (revoke_one cfg r d id reason b p)).store k (lost x) =
        revoke_all-Loses cfg r d id reason k (lost x) cs _ (inl one) in
      ground (arith, eq_iff b.status cert_active, ap (λ (t : Certificate). t.status) same, still)

  disable_cascade-lost :
      (published : Option Bytes) (s : Server) (c : Certificate)
      → IsConsistent s.st
      → get s.st.devices k ≡ some x
      → certificate c.id s.st ≡ ok c
      → c.account_id ≡ id
      → c.status ≡ cert_active
      → c.device_id ≡ k
      → device k (disable_cascade cfg r d id reason published s).0.st ≡ ok (lost x)
  unfolding disable_cascade append device
  disable_cascade-lost published s c h e there owned on held = ground (
    arith,
    revoke_all-lost (certificates_by_account r id s.st) c (starting s.st)
        ((certificates_by_account_iff r s.st h id c).1 (there, owned)) on held (inl e),
  )

-- In a consistent store, disabling an end user's account marks a device of it lost, and changes
-- nothing else of the device, where the device holds an active certificate of the account.
pub h_disable_account-lost :
    (cfg : Config) (r : Ranging) (d : Draw) (published : Option Bytes) (id : String) (s : Server)
    (a : Account) (x : Device) (c : Certificate)
    → IsConsistent s.st
    → account id s.st ≡ ok a
    → a.role ≡ role_user
    → device x.id s.st ≡ ok x
    → x.account_id ≡ id
    → certificate c.id s.st ≡ ok c
    → c.account_id ≡ id
    → c.status ≡ cert_active
    → c.device_id ≡ x.id
    → device x.id (h_disable_account cfg r d published id s).0.st
      ≡ ok (record x { status = device_lost })
unfolding h_disable_account append device set_account_status certificate
h_disable_account-lost cfg r d published id s a x c h known user held mine there owned on of =
    let (found, same) = client_target-found id s.st a h known user in
    rw (found, h_disable_account)
      (disable_cascade-lost cfg r d a.id "account disabled" x.id x refl (rw (sym same) at mine)
        published (record s { st = (set_account_status a.id account_disabled s.st).0 }) c
        (set_account_status-IsConsistent a.id account_disabled s.st h) (ground arith) (ground arith)
        (rw (sym same) at owned) on of)
