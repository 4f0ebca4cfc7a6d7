-- ===== src/Store/Devices.antt =====
-- memory.go: devices and enrollments.
use ttd_elektronik.Prelude.{
  ℕ, String, Bool, Option, none, some, List, [], ◌∷◌, ◌==◌, get, put, values, Result, ok, err, ltb,
  or_else, Ranging, sort_by, keep, if◌then◌else◌,
}
use ttd_elektronik.Store.Types.{
  Device, Enrollment, Error, not_found, device_active, enrollment_submitted,
}
use ttd_elektronik.Store.Memory.{Memory}

unfoldable pub create_device : String → ℕ → Device → Memory → Memory × Device
create_device fresh now d m =
    let d' = record d {
      id = or_else d.id fresh;
      status = or_else d.status device_active;
      created_at = now;
    } in
    (record m { devices = put m.devices d'.id d' }, d')

unfoldable pub device : String → Memory → Result Error Device
device id m = elim (get m.devices id) [ none ↦ err not_found | some d ↦ ok d ]

unfoldable pub set_device_status : String → String → Memory → Memory × Result Error (Unit {0})
set_device_status id status m = elim (get m.devices id) [
  | none ↦ (m, err not_found)
  | some d ↦ (record m { devices = put m.devices id (record d { status = status }) }, ok tt)
]

abbrev pub device_before : Device → Device → Bool
device_before a b = ltb a.created_at b.created_at

unfoldable pub devices_by_account : Ranging → String → Memory → List Device
devices_by_account r id m =
    sort_by device_before (keep (λ d. d.account_id == id) (r.range Device (values m.devices)))

unfoldable pub create_enrollment : String → ℕ → Enrollment → Memory → Memory × Enrollment
create_enrollment fresh now e m =
    let e' = record e {
      id = or_else e.id fresh;
      status = or_else e.status enrollment_submitted;
      created_at = now;
    } in
    (record m { enrollments = put m.enrollments e'.id e' }, e')

unfoldable pub enrollment : String → Memory → Result Error Enrollment
enrollment id m = elim (get m.enrollments id) [ none ↦ err not_found | some e ↦ ok e ]

-- One round of the loop of `EnrollmentByDevice`; `none` is `!found`.
abbrev pub newer_enrollment : String → Option Enrollment → Enrollment → Option Enrollment
newer_enrollment device none e = if e.device_id == device then some e else none
newer_enrollment device (some l) e =
    if e.device_id == device
    then (if ltb l.created_at e.created_at then some e else some l)
    else some l

abbrev pub latest_enrollment : String → Option Enrollment → List Enrollment → Option Enrollment
latest_enrollment device latest [] = latest
latest_enrollment device latest (e ∷ es) =
    latest_enrollment device (newer_enrollment device latest e) es

unfoldable pub enrollment_by_device : Ranging → String → Memory → Result Error Enrollment
enrollment_by_device r device m =
    elim (latest_enrollment device none (r.range Enrollment (values m.enrollments))) [
      | none ↦ err not_found
      | some e ↦ ok e
    ]

abbrev pub enrollment_before : Enrollment → Enrollment → Bool
enrollment_before a b = ltb a.created_at b.created_at

unfoldable pub list_enrollments : Ranging → Memory → List Enrollment
list_enrollments r m = sort_by enrollment_before (r.range Enrollment (values m.enrollments))

unfoldable pub set_enrollment_status : String → String → Memory → Memory × Result Error (Unit {0})
set_enrollment_status id status m = elim (get m.enrollments id) [
  | none ↦ (m, err not_found)
  | some e ↦ (record m { enrollments = put m.enrollments id (record e { status = status }) }, ok tt)
]
