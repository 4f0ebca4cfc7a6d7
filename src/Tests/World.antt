-- ===== src/Tests/World.antt =====
-- A sample world: a certificate and a document that the third-party code reads, and a store with an
-- end user, an admin, a device, a certificate and a reservation.
use ttd_elektronik.Prelude.{
  ℕ, String, true, false, Option, none, some, List, [], ◌∷◌, eqb, if◌then◌else◌, ◌==◌, eq_iff, get,
  put, empty, ◌≡◌, refl, arith,
}
use ttd_elektronik.Core.Certutil
use ttd_elektronik.Core.Certutil.{X509, Block, Crl, oid_document_signing}
use ttd_elektronik.Core.Enrollment.{Requests, Request}
use ttd_elektronik.Core.Verification.{Pdfsign, PdfSignature, parsed}
use ttd_elektronik.Store.Types.{
  Bytes, Account, Device, Enrollment, Certificate, Reservation, role_user, role_admin,
  account_active, device_active, cert_active, enrollment_submitted, reservation_reserved,
}
use ttd_elektronik.Store.Memory.{Memory, new_memory}
use ttd_elektronik.Store.Accounts
use ttd_elektronik.Store.Devices
use ttd_elektronik.Store.Certificates
use ttd_elektronik.Store.Signatures
use ttd_elektronik.Store.Ops.{
  Reach, here, next, apply, create_account, create_device, create_enrollment, create_certificate,
  create_reservation,
}
use ttd_elektronik.Store.Invariant.{IsConsistent, new_memory-IsConsistent}
use ttd_elektronik.Store.Invariant.Preserved.{Reach-IsConsistent}
use ttd_elektronik.Api.Types.{Claims, Draw, Passwords}
use ttd_elektronik.Api.Uploads.{Uploads}
use ttd_elektronik.Api.Server.{Config, Server}

abbrev pub leaf : Certutil.Certificate
leaf = record {
  raw = 2 ∷ [];
  subject = "CN=Sari";
  issuer = "CN=Lab";
  serial = 7;
  key_algorithm = "ML-DSA-65";
  signature_algorithm = "ML-DSA-65";
  is_mldsa = true;
  public_key = 5 ∷ [];
  not_before = 1;
  not_after = 1000;
  is_ca = false;
  unknown_ekus = oid_document_signing ∷ [];
}

abbrev pub sample_crl : Crl
sample_crl = record { raw = 9 ∷ []; this_update = 1; next_update = 1000; entries = (7, 5) ∷ [] }

abbrev blocks_of : Bytes → List Block
blocks_of [] = []
blocks_of (b ∷ bs) = record { type = "CERTIFICATE"; bytes = b ∷ bs } ∷ []

abbrev read_certificate : Bytes → Option Certutil.Certificate
read_certificate [] = none
read_certificate (b ∷ bs) = some leaf

abbrev read_crl : Bytes → Option Crl
read_crl [] = none
read_crl (b ∷ bs) = some sample_crl

abbrev pub x509 : X509
x509 = record {
  blocks = blocks_of;
  parse_certificate = read_certificate;
  parse_crl = read_crl;
  signed_by = λ crl c. true;
  chains = λ c inter roots at. some 1;
  sha256_hex = λ b. "fp";
  hex = λ n. "07";
}

abbrev pub request : Request
request = record {
  subject = "CN=Sari";
  self_signed = true;
  is_mldsa = true;
  is_mldsa65 = true;
  public_key = 5 ∷ [];
  fingerprint = some "kfp";
}

abbrev pub requests : Requests
requests = record { parse_request = λ b. some request }

abbrev pub signed : PdfSignature
signed = record {
  valid = true;
  trusted_chain = true;
  revoked = false;
  timestamp_valid = false;
  reason = "";
  contact = "pqc-public-id:p1";
  warnings = [];
  errors = [];
  signing_time = 5;
  certificate = some leaf;
}

abbrev pub pdfsign : Pdfsign
pdfsign = record {
  run = λ pdf roots only external at. parsed (signed ∷ []);
  sha512_hex = λ pdf. "sha";
  rfc3339 = λ n. "t";
}

abbrev pub pdf : Bytes
pdf = 0x25 ∷ 0x50 ∷ 0x44 ∷ 0x46 ∷ 0x2d ∷ 0x31 ∷ []

abbrev pub config : Config
config = record {
  root_ca_pem = 1 ∷ [];
  ca_chain_pem = 1 ∷ [];
  public_base_url = "";
  max_upload_bytes = 200;
  max_stamp_bytes = 100;
  max_verify_bytes = 100;
  access_ttl = 900;
  lab_issuer = true;
  issuer_org = "";
}

abbrev pub sari : Account
sari = record {
  id = "a1";
  email = "sari@x";
  display_name = "Sari";
  full_name = "Sari Dewi";
  organization = "";
  position = "";
  nip = "";
  password_hash = "rahasia1";
  role = role_user;
  status = account_active;
  created_at = 1;
}

abbrev pub budi : Account
budi = record sari { id = "a2"; email = "budi"; role = role_admin }

abbrev pub phone : Device
phone = record {
  id = "d1";
  account_id = "a1";
  label = "hp";
  platform = "android";
  status = device_active;
  created_at = 1;
}

abbrev pub enrolled : Enrollment
enrolled = record {
  id = "e1";
  device_id = "d1";
  account_id = "a1";
  csr_pem = 4 ∷ [];
  csr_key_fp = "kfp";
  status = enrollment_submitted;
  created_at = 1;
}

abbrev pub certified : Certificate
certified = record {
  id = "c1";
  enrollment_id = "e1";
  device_id = "d1";
  account_id = "a1";
  serial = "07";
  fingerprint = "fp";
  pem = 2 ∷ [];
  not_before = 1;
  not_after = 1000;
  status = cert_active;
  revoked_at = 0;
  rev_reason = "";
}

abbrev pub reserved : Reservation
reserved = record {
  public_id = "p1";
  account_id = "a1";
  device_id = "d1";
  original_sha512 = "o";
  file_name = "surat.pdf";
  status = reservation_reserved;
  created_at = 2;
  expires_at = 100;
}

abbrev pub world : Memory
world = record {
  accounts = ("a1", sari) ∷ ("a2", budi) ∷ [];
  by_email = ("sari@x", "a1") ∷ ("budi", "a2") ∷ [];
  devices = ("d1", phone) ∷ [];
  enrollments = ("e1", enrolled) ∷ [];
  certificates = ("c1", certified) ∷ [];
  reservations = ("p1", reserved) ∷ [];
  signatures = [];
  audit = [];
  objects = [];
}

-- The world is what these calls make of an empty store.
abbrev calls : Memory → Memory
calls m = apply (create_reservation "" 2 reserved) (
    apply (create_certificate "" certified) (
      apply (create_enrollment "" 1 enrolled) (
        apply (create_device "" 1 phone)
          (apply (create_account "" 1 budi) (apply (create_account "" 1 sari) m)))))

calls-Reach : Reach new_memory (calls new_memory)
unfolding apply get put new_memory empty Accounts.create_account Devices.create_device
    Devices.create_enrollment
calls-Reach =
    next
      (next
        (next
          (next (next (next here (create_account "" 1 sari) refl) (create_account "" 1 budi) refl)
            (create_device "" 1 phone) tt)
          (create_enrollment "" 1 enrolled) tt)
        (create_certificate "" certified) refl)
      (create_reservation "" 2 reserved) tt

pub world-IsConsistent : IsConsistent world
unfolding apply get put new_memory empty Accounts.create_account Devices.create_device
    Devices.create_enrollment Certificates.create_certificate Signatures.create_reservation
world-IsConsistent = Reach-IsConsistent new_memory-IsConsistent calls-Reach

abbrev pub uploads : Uploads
uploads = record { dir = "/tmp"; sessions = []; files = [] }

abbrev pub server : Server
server = record { st = world; crl = []; uploads = uploads }

abbrev pub draw : Draw
draw = record { now = 10; id = λ n. if eqb n 0 then "r0" else if eqb n 1 then "r1" else "r2" }

abbrev pub claims : Claims
claims = record { sub = "a1"; role = role_user; exp = 900; iat = 0 }

pub plain_law : (salt p h : String) → some p ≡ some h → (p == h) ≡ true
plain_law salt p h e = ground (arith, eq_iff p h)

abbrev pub plain : Passwords
plain = record { hash = λ salt p. some p; verify = λ p h. p == h; verify_hash = plain_law }

abbrev pub key_of : ℕ → String → String
key_of at id = id
