-- ===== src/Tests/Stores.antt =====
-- Examples for the results on the store.
use ttd_elektronik.Prelude.{some, List, [], ◌∷◌, ◌++◌, get, ◌≡◌, refl}
use ttd_elektronik.Store.Types.{AuditEvent, Signature, event, cert_revoked}
use ttd_elektronik.Store.Memory.{Memory}
use ttd_elektronik.Store.Ops.{Reach, here, next, apply, append, delete_account}
use ttd_elektronik.Store.Invariant.{IsConsistent}
use ttd_elektronik.Store.Invariant.Preserved.{Reach-IsConsistent}
use ttd_elektronik.Store.Permanence.{signature-Reach, IsRevoked-Reach, audit-Reach, IsRevoked}
use ttd_elektronik.Api.Submit.{stored_record}
use ttd_elektronik.Tests.World.{world, world-IsConsistent, certified, reserved}

abbrev noted : AuditEvent
noted = event "crl.import" "" "" "ok" ""

-- A deletion and an audit event.
abbrev later : Memory → Memory
later m = apply (append "r0" 5 noted) (apply (delete_account "a1") m)

later-Reach : (m : Memory) → Reach m (later m)
later-Reach m = next (next here (delete_account "a1") tt) (append "r0" 5 noted) tt

Reach-IsConsistent_example : IsConsistent (later world)
Reach-IsConsistent_example =
    Reach-IsConsistent {m = world} {n = later world} world-IsConsistent (later-Reach world)

abbrev sent : Signature
sent = stored_record 5 reserved "k" "sha" 6

abbrev signed_world : Memory
signed_world = record world { signatures = ("p1", sent) ∷ [] }

signature-Reach_example : get (later signed_world).signatures "p1" ≡ some sent
unfolding get
signature-Reach_example =
    signature-Reach {m = signed_world} {n = later signed_world} "p1" sent (later-Reach signed_world)
      refl

abbrev revoked_world : Memory
revoked_world = record world {
  certificates = ("c1", record certified { status = cert_revoked }) ∷ [];
}

IsRevoked-Reach_example : IsRevoked (get (later revoked_world).certificates "c1") certified
unfolding get
IsRevoked-Reach_example =
    IsRevoked-Reach {m = revoked_world} {n = later revoked_world} "c1" certified
      (later-Reach revoked_world) (refl, refl, refl)

audit-Reach_example : (more : List AuditEvent) × ((later world).audit ≡ world.audit ++ more)
audit-Reach_example = audit-Reach {m = world} {n = later world} (later-Reach world)
