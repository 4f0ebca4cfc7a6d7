-- ===== src/Tests/Accounts.antt =====
-- Examples for the results on accounts, sessions and certificates.
use ttd_elektronik.Prelude.{some, [], ◌∷◌, get, put, ◌≡◌, ◌≢◌, refl, in_order, ok, err, values}
use ttd_elektronik.Store.Types.{Certificate, cert_active, device_lost, not_found}
use ttd_elektronik.Store.Memory.{Memory}
use ttd_elektronik.Store.Accounts.{account, set_account_status, delete_account}
use ttd_elektronik.Store.Devices.{device, devices_by_account, set_device_status}
use ttd_elektronik.Store.Certificates.{
  certificate, certificates_by_account, revoke_certificate, revoked,
}
use ttd_elektronik.Store.Ops.{apply, create_certificate}
use ttd_elektronik.Store.Invariant.{IsConsistent}
use ttd_elektronik.Store.Invariant.Preserved.{apply-IsConsistent}
use ttd_elektronik.Store.Signatures.{append}
use ttd_elektronik.Api.Server.{Server}
use ttd_elektronik.Api.Accounts.{client_target}
use ttd_elektronik.Api.Accounts.Cascade.{
  h_disable_account, h_delete_account, disable_cascade, revoke_all, revoke_one, lose_devices,
}
use ttd_elektronik.Api.Accounts.Revoked.{h_disable_account-ends, h_delete_account-ends}
use ttd_elektronik.Api.Accounts.Lost.{h_disable_account-lost}
use ttd_elektronik.Api.Accounts.Deleted.{h_delete_account-dangling}
use ttd_elektronik.Tests.World.{
  world, world-IsConsistent, sari, phone, certified, server, draw, config,
}

abbrev disabled : Server
disabled = (h_disable_account config in_order draw (some (9 ∷ [])) "a1" server).0

abbrev deleted : Server
deleted = (h_delete_account config in_order draw (some (9 ∷ [])) "a1" server).0

disabled-certificate : certificate "c1" disabled.st ≡ ok (revoked "account disabled" 10 certified)
unfolding certificate h_disable_account client_target account set_account_status disable_cascade
    revoke_all certificates_by_account revoke_one revoke_certificate lose_devices devices_by_account
    set_device_status append get put values
disabled-certificate = refl

h_disable_account-ends_example : (revoked "account disabled" 10 certified).status ≢ cert_active
unfolding account get
h_disable_account-ends_example =
    h_disable_account-ends config in_order draw (some (9 ∷ [])) "a1" server sari world-IsConsistent
      refl refl (revoked "account disabled" 10 certified) disabled-certificate refl

deleted-certificate : certificate "c1" deleted.st ≡ ok (revoked "account deleted" 10 certified)
unfolding certificate h_delete_account client_target account set_account_status delete_account
    disable_cascade revoke_all certificates_by_account revoke_one revoke_certificate lose_devices
    devices_by_account set_device_status append get put values
deleted-certificate = refl

h_delete_account-ends_example : (revoked "account deleted" 10 certified).status ≢ cert_active
unfolding account get
h_delete_account-ends_example =
    h_delete_account-ends config in_order draw (some (9 ∷ [])) "a1" server sari world-IsConsistent
      refl refl (revoked "account deleted" 10 certified) deleted-certificate refl

abbrev foreign : Certificate
foreign = record certified { id = "c2"; account_id = "a2" }

-- The same world with a certificate of the admin's.
abbrev wider : Memory
wider = apply (create_certificate "" foreign) world

wider-IsConsistent : IsConsistent wider
unfolding get
wider-IsConsistent =
    apply-IsConsistent world world-IsConsistent (create_certificate "" foreign) refl

h_disable_account-lost_example :
    device "d1" disabled.st ≡ ok (record phone { status = device_lost })
unfolding account device certificate get
h_disable_account-lost_example =
    h_disable_account-lost config in_order draw (some (9 ∷ [])) "a1" server sari phone certified
      world-IsConsistent refl refl refl refl refl refl refl refl

h_delete_account-dangling_example :
    (account "a1" deleted.st ≡ err not_found) × (deleted.st.signatures ≡ world.signatures)
unfolding account get
h_delete_account-dangling_example =
    h_delete_account-dangling config in_order draw (some (9 ∷ [])) "a1" server sari
      world-IsConsistent refl refl
