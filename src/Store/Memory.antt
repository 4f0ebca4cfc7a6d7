-- ===== src/Store/Memory.antt =====
-- server/internal/store/memory.go: the state of the in-memory store. The mutex makes each method
-- one step; what a method draws from outside, a random id and the clock, is an argument.
use ttd_elektronik.Prelude.{String, Dict, empty, List, []}
use ttd_elektronik.Store.Types.{
  Account, Device, Enrollment, Certificate, Reservation, Signature, AuditEvent, Bytes,
}

pub record Memory : Type 0 where
  pub accounts : Dict Account
  pub by_email : Dict String
  pub devices : Dict Device
  pub enrollments : Dict Enrollment
  pub certificates : Dict Certificate
  pub reservations : Dict Reservation
  pub signatures : Dict Signature
  pub audit : List AuditEvent
  pub objects : Dict Bytes

unfoldable pub new_memory : Memory
unfolding empty
new_memory = record {
  accounts = empty;
  by_email = empty;
  devices = empty;
  enrollments = empty;
  certificates = empty;
  reservations = empty;
  signatures = empty;
  audit = [];
  objects = empty;
}
