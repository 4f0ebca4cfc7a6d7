-- ===== src/Store/Invariant.antt =====
-- The consistency of the in-memory store: every map is keyed by the ids of what it holds, and the
-- email index and the accounts agree in both directions.
pub mod Preserved
use ttd_elektronik.Prelude.{
  String, Dict, Option, none, some, get, empty, IsKeyed, get-empty, ◌≡◌, refl,
}
use ttd_elektronik.Store.Types.{Account, Device, Enrollment, Certificate, Reservation, Signature}
use ttd_elektronik.Store.Memory.{Memory, new_memory}

abbrev pub email_of : Option Account → Option String
email_of none = none
email_of (some a) = some a.email

-- An email names an account, and an account is found by its email.
pub record IsIndexed (accounts : Dict Account) (by_email : Dict String) : Type 0 where
  pub keyed : IsKeyed (λ a. a.id) accounts
  pub listed :
      (id : String) (a : Account) → get accounts id ≡ some a → get by_email a.email ≡ some id
  pub points :
      (email id : String) → get by_email email ≡ some id → email_of (get accounts id) ≡ some email

pub record IsConsistent (m : Memory) : Type 0 where
  pub indexed : IsIndexed m.accounts m.by_email
  pub devices_keyed : IsKeyed (λ d. d.id) m.devices
  pub enrollments_keyed : IsKeyed (λ e. e.id) m.enrollments
  pub certificates_keyed : IsKeyed (λ c. c.id) m.certificates
  pub reservations_keyed : IsKeyed (λ r. r.public_id) m.reservations
  pub signatures_keyed : IsKeyed (λ s. s.public_id) m.signatures

pub new_memory-IsConsistent : IsConsistent new_memory
unfolding new_memory empty
new_memory-IsConsistent = record {
  indexed = record {
    keyed = tt;
    listed = λ id a e. cc (get-empty {V = Account} id);
    points = λ email id e. cc (get-empty {V = String} email);
  };
  devices_keyed = tt;
  enrollments_keyed = tt;
  certificates_keyed = tt;
  reservations_keyed = tt;
  signatures_keyed = tt;
}

-- One map replaced, and the rest left alone.
module _ {m : Memory} (h : IsConsistent m) where
  pub with_accounts :
      {accounts : Dict Account} {by_email : Dict String}
      → IsIndexed accounts by_email
      → IsConsistent (record m { accounts = accounts; by_email = by_email })
  with_accounts ok = record {
    indexed = ok;
    devices_keyed = h.devices_keyed;
    enrollments_keyed = h.enrollments_keyed;
    certificates_keyed = h.certificates_keyed;
    reservations_keyed = h.reservations_keyed;
    signatures_keyed = h.signatures_keyed;
  }

  pub with_devices :
      (devices : Dict Device)
      → IsKeyed (λ x. x.id) devices
      → IsConsistent (record m { devices = devices })
  with_devices devices keyed = record {
    indexed = h.indexed;
    devices_keyed = keyed;
    enrollments_keyed = h.enrollments_keyed;
    certificates_keyed = h.certificates_keyed;
    reservations_keyed = h.reservations_keyed;
    signatures_keyed = h.signatures_keyed;
  }

  pub with_enrollments :
      (enrollments : Dict Enrollment)
      → IsKeyed (λ x. x.id) enrollments
      → IsConsistent (record m { enrollments = enrollments })
  with_enrollments enrollments keyed = record {
    indexed = h.indexed;
    devices_keyed = h.devices_keyed;
    enrollments_keyed = keyed;
    certificates_keyed = h.certificates_keyed;
    reservations_keyed = h.reservations_keyed;
    signatures_keyed = h.signatures_keyed;
  }

  pub with_certificates :
      (certificates : Dict Certificate)
      → IsKeyed (λ x. x.id) certificates
      → IsConsistent (record m { certificates = certificates })
  with_certificates certificates keyed = record {
    indexed = h.indexed;
    devices_keyed = h.devices_keyed;
    enrollments_keyed = h.enrollments_keyed;
    certificates_keyed = keyed;
    reservations_keyed = h.reservations_keyed;
    signatures_keyed = h.signatures_keyed;
  }

  pub with_reservations :
      (reservations : Dict Reservation)
      → IsKeyed (λ x. x.public_id) reservations
      → IsConsistent (record m { reservations = reservations })
  with_reservations reservations keyed = record {
    indexed = h.indexed;
    devices_keyed = h.devices_keyed;
    enrollments_keyed = h.enrollments_keyed;
    certificates_keyed = h.certificates_keyed;
    reservations_keyed = keyed;
    signatures_keyed = h.signatures_keyed;
  }

  pub with_signatures :
      (signatures : Dict Signature)
      → IsKeyed (λ x. x.public_id) signatures
      → IsConsistent (record m { signatures = signatures })
  with_signatures signatures keyed = record {
    indexed = h.indexed;
    devices_keyed = h.devices_keyed;
    enrollments_keyed = h.enrollments_keyed;
    certificates_keyed = h.certificates_keyed;
    reservations_keyed = h.reservations_keyed;
    signatures_keyed = keyed;
  }
