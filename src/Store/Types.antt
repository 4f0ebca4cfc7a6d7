-- ===== src/Store/Types.antt =====
-- server/internal/store/store.go: the records of the store, its errors and its status values.
-- Times are instants (nanoseconds) as ℕ, 0 being Go's zero time; byte slices are lists of ℕ.
use ttd_elektronik.Prelude.{ℕ, String, List, []}

abbrev pub Bytes : Type 0
Bytes = List ℕ

-- `ErrNotFound`, and the two errors that the in-memory store formats.
pub data Error : Type 0 where
  not_found email_taken : Error
  signature_exists : String → Error

abbrev pub role_user : String
role_user = "user"

abbrev pub role_admin : String
role_admin = "admin"

abbrev pub role_super_admin : String
role_super_admin = "superadmin"

abbrev pub account_pending : String
account_pending = "pending"

abbrev pub account_active : String
account_active = "active"

abbrev pub account_disabled : String
account_disabled = "disabled"

abbrev pub device_active : String
device_active = "active"

abbrev pub device_lost : String
device_lost = "lost"

abbrev pub enrollment_submitted : String
enrollment_submitted = "submitted"

abbrev pub enrollment_approved : String
enrollment_approved = "approved"

abbrev pub enrollment_issued : String
enrollment_issued = "issued"

abbrev pub cert_active : String
cert_active = "active"

abbrev pub cert_revoked : String
cert_revoked = "revoked"

abbrev pub reservation_reserved : String
reservation_reserved = "reserved"

abbrev pub reservation_accepted : String
reservation_accepted = "accepted"

abbrev pub verification_accepted : String
verification_accepted = "accepted"

abbrev pub verification_stored_only : String
verification_stored_only = "stored_unverified"

pub record Account : Type 0 where
  pub id : String
  pub email : String
  pub display_name : String
  pub full_name : String
  pub organization : String
  pub position : String
  pub nip : String
  pub password_hash : String
  pub role : String
  pub status : String
  pub created_at : ℕ

pub record Device : Type 0 where
  pub id : String
  pub account_id : String
  pub label : String
  pub platform : String
  pub status : String
  pub created_at : ℕ

pub record Enrollment : Type 0 where
  pub id : String
  pub device_id : String
  pub account_id : String
  pub csr_pem : Bytes
  pub csr_key_fp : String
  pub status : String
  pub created_at : ℕ

pub record Certificate : Type 0 where
  pub id : String
  pub enrollment_id : String
  pub device_id : String
  pub account_id : String
  pub serial : String
  pub fingerprint : String
  pub pem : Bytes
  pub not_before : ℕ
  pub not_after : ℕ
  pub status : String
  pub revoked_at : ℕ
  pub rev_reason : String

pub record Reservation : Type 0 where
  pub public_id : String
  pub account_id : String
  pub device_id : String
  pub original_sha512 : String
  pub file_name : String
  pub status : String
  pub created_at : ℕ
  pub expires_at : ℕ

pub record Signature : Type 0 where
  pub public_id : String
  pub account_id : String
  pub device_id : String
  pub certificate_id : String
  pub cert_serial : String
  pub cert_fingerprint : String
  pub algorithm : String
  pub pdf_profile : String
  pub original_sha512 : String
  pub signed_sha512 : String
  pub client_claimed_signing_time : String
  pub server_received_at : ℕ
  pub storage_object_key : String
  pub signed_size : ℕ
  pub verification_status : String
  pub created_at : ℕ

pub record AuditEvent : Type 0 where
  pub id : String
  pub time : ℕ
  pub type : String
  pub account_id : String
  pub device_id : String
  pub result : String
  pub detail : String

-- What a lookup returns beside an error: Go's zero value.
abbrev pub zero_account : Account
zero_account = record {
  id = "";
  email = "";
  display_name = "";
  full_name = "";
  organization = "";
  position = "";
  nip = "";
  password_hash = "";
  role = "";
  status = "";
  created_at = 0;
}

abbrev pub zero_device : Device
zero_device = record {
  id = "";
  account_id = "";
  label = "";
  platform = "";
  status = "";
  created_at = 0;
}

abbrev pub zero_certificate : Certificate
zero_certificate = record {
  id = "";
  enrollment_id = "";
  device_id = "";
  account_id = "";
  serial = "";
  fingerprint = "";
  pem = [];
  not_before = 0;
  not_after = 0;
  status = "";
  revoked_at = 0;
  rev_reason = "";
}

-- An audit event as the handlers write it; `Append` fills in the id and the time.
abbrev pub event : String → String → String → String → String → AuditEvent
event type account device result detail = record {
  id = "";
  time = 0;
  type = type;
  account_id = account;
  device_id = device;
  result = result;
  detail = detail;
}
