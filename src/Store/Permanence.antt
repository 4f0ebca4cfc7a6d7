-- ===== src/Store/Permanence.antt =====
-- What no method of the store undoes: a recorded signature, a revocation, the audit log.
use ttd_elektronik.Prelude.{
  String, Option, none, some, List, [], ◌++◌, get, get-put, ◌≡◌, refl, sym, ap, ◌∙◌, eq_iff, arith,
  Option-cases, inl, inr, ◌∷◌, or_else, append-nil, append_assoc,
}
use ttd_elektronik.Store.Types.{Signature, Certificate, AuditEvent, cert_revoked}
use ttd_elektronik.Store.Memory.{Memory}
use ttd_elektronik.Store.Certificates
use ttd_elektronik.Store.Ops.{
  Op, apply, IsFresh, Reach, here, next, create_certificate, revoke_certificate, create_signature,
  append,
}

apply-signature :
    (m : Memory) (op : Op) (k : String) (s : Signature)
    → get m.signatures k ≡ some s
    → get (apply op m).signatures k ≡ some s
unfolding apply
apply-signature m (create_signature now t) k s h = ground (
  arith,
  get-put m.signatures t.public_id k (record t { created_at = now }),
  eq_iff t.public_id k,
)
apply-signature m _ k s h = ground arith

-- A recorded signature is found unchanged in every later state.
pub signature-Reach :
    {m n : Memory} (k : String) (s : Signature)
    → Reach m n
    → get m.signatures k ≡ some s
    → get n.signatures k ≡ some s
signature-Reach k s here h = h
signature-Reach k s (next r op fresh) h = apply-signature _ op k s (signature-Reach k s r h)

-- A certificate that has been revoked, seen by its key.
abbrev pub IsRevoked : Option Certificate → Certificate → Type 0
IsRevoked none c = ⊥
IsRevoked (some d) c =
    (d.status ≡ cert_revoked) × (d.serial ≡ c.serial) × (d.account_id ≡ c.account_id)

apply-IsRevoked :
    (m : Memory) (op : Op) (k : String) (c : Certificate)
    → IsFresh op m
    → IsRevoked (get m.certificates k) c
    → IsRevoked (get (apply op m).certificates k) c
unfolding apply
apply-IsRevoked m (create_certificate fresh d) k c f h = ground (
  arith,
  eq_iff (or_else d.id fresh) k,
  get-put m.certificates (or_else d.id fresh) k (Certificates.create_certificate fresh d m).1,
)
apply-IsRevoked m (revoke_certificate id reason now) k c f h =
    elim (Option-cases (get m.certificates id)) [
      | inl missing ↦ ground arith
      | inr (d, found) ↦
          ground
            (arith, eq_iff id k, get-put m.certificates id k (Certificates.revoked reason now d))
    ]
apply-IsRevoked m _ k c f h = ground arith

-- A revoked certificate stays revoked, with its serial and its account, in every later state, if
-- the ids of new certificates and accounts collide with nothing.
pub IsRevoked-Reach :
    {m n : Memory} (k : String) (c : Certificate)
    → Reach m n
    → IsRevoked (get m.certificates k) c
    → IsRevoked (get n.certificates k) c
IsRevoked-Reach k c here h = h
IsRevoked-Reach k c (next r op fresh) h = apply-IsRevoked _ op k c fresh (IsRevoked-Reach k c r h)

apply-audit :
    (m : Memory) (op : Op) → (more : List AuditEvent) × ((apply op m).audit ≡ m.audit ++ more)
unfolding apply
apply-audit m (append fresh now ev) = (record ev { id = fresh; time = now } ∷ [], refl)
apply-audit m _ = ([], ground (arith, append-nil m.audit))

-- The audit log only grows: what it held stands in front of what is added.
pub audit-Reach :
    {m n : Memory} → Reach m n → (more : List AuditEvent) × (n.audit ≡ m.audit ++ more)
audit-Reach {m} here = ([], sym (append-nil m.audit))
audit-Reach {m} (next {t = t} r op fresh) =
    let (more, e) = audit-Reach r in
    let (last, f) = apply-audit t op in
    (more ++ last, f ∙ ap (λ l. l ++ last) e ∙ append_assoc m.audit more last)
