-- ===== src/Store/Ops.antt =====
-- The methods of the in-memory store that change it, as one step function, and the states that a
-- sequence of them can reach. `IsFresh` says that a random id collides with nothing.
use ttd_elektronik.Prelude.{ℕ, String, Option, none, get, or_else, ◌≡◌}
use ttd_elektronik.Store.Types.{
  Account, Device, Enrollment, Certificate, Reservation, Signature, AuditEvent, Bytes,
}
use ttd_elektronik.Store.Memory.{Memory}
use ttd_elektronik.Store.Accounts
use ttd_elektronik.Store.Devices
use ttd_elektronik.Store.Certificates
use ttd_elektronik.Store.Signatures

pub data Op : Type 0 where
  create_account : String → ℕ → Account → Op
  set_account_status : String → String → Op
  update_account_profile : String → String → String → Op
  set_account_password : String → String → Op
  delete_account : String → Op
  create_device : String → ℕ → Device → Op
  set_device_status : String → String → Op
  create_enrollment : String → ℕ → Enrollment → Op
  set_enrollment_status : String → String → Op
  create_certificate : String → Certificate → Op
  revoke_certificate : String → String → ℕ → Op
  create_reservation : String → ℕ → Reservation → Op
  set_reservation_status : String → String → Op
  create_signature : ℕ → Signature → Op
  put_object : String → Bytes → Op
  put_object_from : String → Option Bytes → Op
  append : String → ℕ → AuditEvent → Op

unfoldable pub apply : Op → Memory → Memory
unfolding Accounts.create_account Accounts.set_account_status Accounts.update_account_profile
    Accounts.set_account_password Accounts.delete_account Devices.create_device
    Devices.set_device_status Devices.create_enrollment Devices.set_enrollment_status
    Certificates.create_certificate Certificates.revoke_certificate Signatures.create_reservation
    Signatures.set_reservation_status Signatures.create_signature Signatures.put_object
    Signatures.put_object_from Signatures.append
apply (create_account fresh now a) m = (Accounts.create_account fresh now a m).0
apply (set_account_status id status) m = (Accounts.set_account_status id status m).0
apply (update_account_profile id name org) m = (Accounts.update_account_profile id name org m).0
apply (set_account_password id hash) m = (Accounts.set_account_password id hash m).0
apply (delete_account id) m = (Accounts.delete_account id m).0
apply (create_device fresh now d) m = (Devices.create_device fresh now d m).0
apply (set_device_status id status) m = (Devices.set_device_status id status m).0
apply (create_enrollment fresh now e) m = (Devices.create_enrollment fresh now e m).0
apply (set_enrollment_status id status) m = (Devices.set_enrollment_status id status m).0
apply (create_certificate fresh c) m = (Certificates.create_certificate fresh c m).0
apply (revoke_certificate id reason now) m = (Certificates.revoke_certificate id reason now m).0
apply (create_reservation fresh now r) m = (Signatures.create_reservation fresh now r m).0
apply (set_reservation_status id status) m = (Signatures.set_reservation_status id status m).0
apply (create_signature now s) m = (Signatures.create_signature now s m).0
apply (put_object key bytes) m = Signatures.put_object key bytes m
apply (put_object_from key bytes) m = (Signatures.put_object_from key bytes m).0
apply (append fresh now ev) m = Signatures.append fresh now ev m

-- The id of an account or certificate that is created is not in use. The methods do not check it: ids
-- are drawn at random, and a row in use would be overwritten.
abbrev pub IsFresh : Op → Memory → Type 0
IsFresh (create_account fresh now a) m = get m.accounts (or_else a.id fresh) ≡ none
IsFresh (create_certificate fresh c) m = get m.certificates (or_else c.id fresh) ≡ none
IsFresh _ m = Unit

-- The states that the methods reach where ids are fresh.
pub data Reach (s : Memory) : Memory → Type 0 where
  here : Reach s s
  next : {t : Memory} → Reach s t → (op : Op) → IsFresh op t → Reach s (apply op t)
