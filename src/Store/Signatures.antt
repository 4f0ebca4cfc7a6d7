-- ===== src/Store/Signatures.antt =====
-- memory.go: reservations, signatures, objects and the audit log.
use ttd_elektronik.Prelude.{
  ℕ, ◌-◌, String, Bool, Option, none, some, List, [], ◌∷◌, ◌++◌, ◌==◌, ◌||◌, get, put, values,
  Result, ok, err, ltb, leb, or_else, Ranging, sort_by, keep, length, drop, if◌then◌else◌,
}
use ttd_elektronik.Store.Types.{
  Reservation, Signature, AuditEvent, Bytes, Error, not_found, signature_exists,
  reservation_reserved,
}
use ttd_elektronik.Store.Memory.{Memory}

unfoldable pub create_reservation : String → ℕ → Reservation → Memory → Memory × Reservation
create_reservation fresh now r m =
    let r' = record r {
      public_id = or_else r.public_id fresh;
      status = or_else r.status reservation_reserved;
      created_at = now;
    } in
    (record m { reservations = put m.reservations r'.public_id r' }, r')

unfoldable pub reservation : String → Memory → Result Error Reservation
reservation id m = elim (get m.reservations id) [ none ↦ err not_found | some r ↦ ok r ]

unfoldable pub set_reservation_status : String → String → Memory → Memory × Result Error (Unit {0})
set_reservation_status id status m = elim (get m.reservations id) [
  | none ↦ (m, err not_found)
  | some r ↦
      (record m { reservations = put m.reservations id (record r { status = status }) }, ok tt)
]

unfoldable pub create_signature : ℕ → Signature → Memory → Memory × Result Error Signature
create_signature now s m = elim (get m.signatures s.public_id) [
  | some _ ↦ (m, err (signature_exists s.public_id))
  | none ↦
      let s' = record s { created_at = now } in
      (record m { signatures = put m.signatures s'.public_id s' }, ok s')
]

unfoldable pub signature : String → Memory → Result Error Signature
signature id m = elim (get m.signatures id) [ none ↦ err not_found | some s ↦ ok s ]

-- The newest comes first.
abbrev pub signature_before : Signature → Signature → Bool
signature_before a b = ltb b.created_at a.created_at

unfoldable pub signatures_by_account : Ranging → String → Memory → List Signature
signatures_by_account r id m =
    sort_by signature_before
      (keep (λ s. s.account_id == id) (r.range Signature (values m.signatures)))

-- The copies that the code makes of its byte slices are the values themselves.
unfoldable pub put_object : String → Bytes → Memory → Memory
put_object key bytes m = record m { objects = put m.objects key bytes }

unfoldable pub get_object : String → Memory → Result Error Bytes
get_object key m = elim (get m.objects key) [ none ↦ err not_found | some b ↦ ok b ]

-- A reader is the bytes that it yields; an error of the reader leaves the store alone.
unfoldable pub put_object_from : String → Option Bytes → Memory → Memory × Bool
unfolding put_object
put_object_from key none m = (m, Bool.false)
put_object_from key (some bytes) m = (put_object key bytes m, Bool.true)

unfoldable pub open_object : String → Memory → Result Error (Bytes × ℕ)
unfolding get_object
open_object key m = elim (get_object key m) [ err e ↦ err e | ok b ↦ ok (b, length b) ]

unfoldable pub append : String → ℕ → AuditEvent → Memory → Memory
append fresh now ev m = record m { audit = m.audit ++ record ev { id = fresh; time = now } ∷ [] }

-- `limit` is an `int`: a negative one is read as 0 here, which has the same effect.
unfoldable pub audit_events : ℕ → Memory → List AuditEvent
audit_events limit m =
    let all = length m.audit in
    let limit' = if leb limit 0 || ltb all limit then all else limit in drop (all - limit') m.audit
