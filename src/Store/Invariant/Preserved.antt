-- ===== src/Store/Invariant/Preserved.antt =====
-- Every method of the store keeps its consistency.
use ttd_elektronik.Prelude.{
  ℕ, String, List, Dict, none, some, get, put, remove, or_else, IsKeyed, put-IsKeyed,
  remove-IsKeyed, get-key, get-put, get-remove, ◌≡◌, refl, eq_iff, arith, ◌∙◌, Option-cases, inl,
  inr,
}
use ttd_elektronik.Store.Types.{AuditEvent, Bytes, Account, Signature}
use ttd_elektronik.Store.Memory.{Memory}
use ttd_elektronik.Store.Accounts.{update_account}
use ttd_elektronik.Store.Accounts
use ttd_elektronik.Store.Devices
use ttd_elektronik.Store.Certificates
use ttd_elektronik.Store.Signatures
use ttd_elektronik.Store.Ops.{
  Op, apply, IsFresh, Reach, here, next, create_account, set_account_status, update_account_profile,
  set_account_password, delete_account, create_device, set_device_status, create_enrollment,
  set_enrollment_status, create_certificate, revoke_certificate, create_reservation,
  set_reservation_status, create_signature, put_object, put_object_from, append,
}
use ttd_elektronik.Store.Invariant.{
  IsIndexed, IsConsistent, with_accounts, with_devices, with_enrollments, with_certificates,
  with_reservations, with_signatures,
}

-- The three ways to change the accounts and their index.
module _ (accounts : Dict Account) (by_email : Dict String) (h : IsIndexed accounts by_email) where
  replaced-IsIndexed :
      (id : String) (a b : Account)
      → get accounts id ≡ some a
      → b.id ≡ a.id
      → b.email ≡ a.email
      → IsIndexed (put accounts id b) by_email
  replaced-IsIndexed id a b found same_id same_email = record {
    keyed =
        put-IsKeyed (λ c. c.id) accounts id b
          (same_id ∙ get-key (λ c. c.id) accounts id a h.keyed found) h.keyed;
    listed =
        λ j c e. ground (arith, get-put accounts id j b, eq_iff id j, h.listed j c, h.listed id a);
    points = λ email j e. ground (arith, get-put accounts id j b, eq_iff id j, h.points email j);
  }

  added-IsIndexed :
      (a : Account)
      → get by_email a.email ≡ none
      → get accounts a.id ≡ none
      → IsIndexed (put accounts a.id a) (put by_email a.email a.id)
  added-IsIndexed a free new = record {
    keyed = put-IsKeyed (λ c. c.id) accounts a.id a refl h.keyed;
    listed = λ j c e. ground (
      arith,
      get-put accounts a.id j a,
      get-put by_email a.email c.email a.id,
      eq_iff a.id j,
      eq_iff a.email c.email,
      h.listed j c,
    );
    points = λ email j e. ground (
      arith,
      get-put accounts a.id j a,
      get-put by_email a.email email a.id,
      eq_iff a.id j,
      eq_iff a.email email,
      h.points email j,
    );
  }

  removed-IsIndexed :
      (id : String) (a : Account)
      → get accounts id ≡ some a
      → IsIndexed (remove accounts id) (remove by_email a.email)
  removed-IsIndexed id a found = record {
    keyed = remove-IsKeyed (λ c. c.id) accounts id h.keyed;
    listed = λ j c e. ground (
      arith,
      get-remove accounts id j,
      get-remove by_email a.email c.email,
      eq_iff id j,
      eq_iff a.email c.email,
      h.listed j c,
      h.listed id a,
    );
    points = λ email j e. ground (
      arith,
      get-remove accounts id j,
      get-remove by_email a.email email,
      eq_iff id j,
      eq_iff a.email email,
      h.points email j,
    );
  }

-- A record that replaces one of the same name.
module _ {V : Type 0} (name : V → String) where
  replaced-IsKeyed :
      (d : Dict V) (k : String) {v w : V}
      → IsKeyed name d
      → get d k ≡ some v
      → name w ≡ name v
      → IsKeyed name (put d k w)
  replaced-IsKeyed d k {v} {w} keyed found same =
      put-IsKeyed name d k w (same ∙ get-key name d k v keyed found) keyed

module _ (m : Memory) (h : IsConsistent m) where
  update_account-IsConsistent :
      (id : String) (change : Account → Account)
      → ((a : Account) → (change a).id ≡ a.id)
      → ((a : Account) → (change a).email ≡ a.email)
      → IsConsistent (update_account id change m).0
  update_account-IsConsistent id change same_id same_email =
      elim (Option-cases (get m.accounts id)) [
        | inl missing ↦ rw (missing, update_account) h
        | inr (a, found) ↦
            rw (found, update_account)
              (with_accounts h (
                replaced-IsIndexed m.accounts m.by_email h.indexed id a (change a) found (same_id a)
                  (same_email a)))
      ]

  create_account-IsConsistent :
      (fresh : String) (now : ℕ) (a : Account)
      → get m.accounts (or_else a.id fresh) ≡ none
      → IsConsistent (Accounts.create_account fresh now a m).0
  unfolding Accounts.create_account
  create_account-IsConsistent fresh now a new = elim (Option-cases (get m.by_email a.email)) [
    | inl free ↦
        rw (free, Accounts.create_account)
          (with_accounts h (added-IsIndexed m.accounts m.by_email h.indexed _ free new))
    | inr (id, taken) ↦ rw (taken, Accounts.create_account) h
  ]

  delete_account-IsConsistent : (id : String) → IsConsistent (Accounts.delete_account id m).0
  unfolding Accounts.delete_account
  delete_account-IsConsistent id = elim (Option-cases (get m.accounts id)) [
    | inl missing ↦ rw (missing, Accounts.delete_account) h
    | inr (a, found) ↦
        rw (found, Accounts.delete_account)
          (with_accounts h (removed-IsIndexed m.accounts m.by_email h.indexed id a found))
  ]

  set_device_status-IsConsistent :
      (id status : String) → IsConsistent (Devices.set_device_status id status m).0
  unfolding Devices.set_device_status
  set_device_status-IsConsistent id status = elim (Option-cases (get m.devices id)) [
    | inl missing ↦ rw (missing, Devices.set_device_status) h
    | inr (d, found) ↦
        rw (found, Devices.set_device_status)
          (with_devices h _ (replaced-IsKeyed (λ x. x.id) _ _ h.devices_keyed found refl))
  ]

  set_enrollment_status-IsConsistent :
      (id status : String) → IsConsistent (Devices.set_enrollment_status id status m).0
  unfolding Devices.set_enrollment_status
  set_enrollment_status-IsConsistent id status = elim (Option-cases (get m.enrollments id)) [
    | inl missing ↦ rw (missing, Devices.set_enrollment_status) h
    | inr (e, found) ↦
        rw (found, Devices.set_enrollment_status)
          (with_enrollments h _ (replaced-IsKeyed (λ x. x.id) _ _ h.enrollments_keyed found refl))
  ]

  revoke_certificate-IsConsistent :
      (id reason : String) (now : ℕ)
      → IsConsistent (Certificates.revoke_certificate id reason now m).0
  unfolding Certificates.revoke_certificate
  revoke_certificate-IsConsistent id reason now = elim (Option-cases (get m.certificates id)) [
    | inl missing ↦ rw (missing, Certificates.revoke_certificate) h
    | inr (c, found) ↦
        rw (found, Certificates.revoke_certificate)
          (with_certificates h _ (replaced-IsKeyed (λ x. x.id) _ _ h.certificates_keyed found refl))
  ]

  set_reservation_status-IsConsistent :
      (id status : String) → IsConsistent (Signatures.set_reservation_status id status m).0
  unfolding Signatures.set_reservation_status
  set_reservation_status-IsConsistent id status = elim (Option-cases (get m.reservations id)) [
    | inl missing ↦ rw (missing, Signatures.set_reservation_status) h
    | inr (r, found) ↦
        rw (found, Signatures.set_reservation_status)
          (with_reservations h _
            (replaced-IsKeyed (λ x. x.public_id) _ _ h.reservations_keyed found refl))
  ]

  create_signature-IsConsistent :
      (now : ℕ) (s : Signature) → IsConsistent (Signatures.create_signature now s m).0
  unfolding Signatures.create_signature
  create_signature-IsConsistent now s = elim (Option-cases (get m.signatures s.public_id)) [
    | inr (old, taken) ↦ rw (taken, Signatures.create_signature) h
    | inl free ↦
        rw (free, Signatures.create_signature)
          (with_signatures h _ (put-IsKeyed (λ x. x.public_id) _ _ _ refl h.signatures_keyed))
  ]

  -- What changes no map but the log or the objects.
  unindexed :
      (audit : List AuditEvent) (objects : Dict Bytes)
      → IsConsistent (record m { audit = audit; objects = objects })
  unindexed audit objects = record {
    indexed = h.indexed;
    devices_keyed = h.devices_keyed;
    enrollments_keyed = h.enrollments_keyed;
    certificates_keyed = h.certificates_keyed;
    reservations_keyed = h.reservations_keyed;
    signatures_keyed = h.signatures_keyed;
  }

-- Each method that changes the store keeps it consistent, if the ids that it draws are new.
pub apply-IsConsistent :
    (m : Memory) → IsConsistent m → (op : Op) → IsFresh op m → IsConsistent (apply op m)
unfolding apply
apply-IsConsistent m h (create_account fresh now a) f =
    create_account-IsConsistent m h fresh now a f
apply-IsConsistent m h (set_account_status id status) f =
    unfold Accounts.set_account_status in
    update_account-IsConsistent m h id _ (λ a. refl) (λ a. refl)
apply-IsConsistent m h (update_account_profile id name org) f =
    unfold Accounts.update_account_profile in
    update_account-IsConsistent m h id _ (λ a. refl) (λ a. refl)
apply-IsConsistent m h (set_account_password id hash) f =
    unfold Accounts.set_account_password in
    update_account-IsConsistent m h id _ (λ a. refl) (λ a. refl)
apply-IsConsistent m h (delete_account id) f = delete_account-IsConsistent m h id
apply-IsConsistent m h (create_device fresh now d) f =
    unfold Devices.create_device in
    with_devices h _ (put-IsKeyed (λ x. x.id) _ _ _ refl h.devices_keyed)
apply-IsConsistent m h (set_device_status id status) f =
    set_device_status-IsConsistent m h id status
apply-IsConsistent m h (create_enrollment fresh now e) f =
    unfold Devices.create_enrollment in
    with_enrollments h _ (put-IsKeyed (λ x. x.id) _ _ _ refl h.enrollments_keyed)
apply-IsConsistent m h (set_enrollment_status id status) f =
    set_enrollment_status-IsConsistent m h id status
apply-IsConsistent m h (create_certificate fresh c) f =
    unfold Certificates.create_certificate in
    with_certificates h _ (put-IsKeyed (λ x. x.id) _ _ _ refl h.certificates_keyed)
apply-IsConsistent m h (revoke_certificate id reason now) f =
    revoke_certificate-IsConsistent m h id reason now
apply-IsConsistent m h (create_reservation fresh now r) f =
    unfold Signatures.create_reservation in
    with_reservations h _ (put-IsKeyed (λ x. x.public_id) _ _ _ refl h.reservations_keyed)
apply-IsConsistent m h (set_reservation_status id status) f =
    set_reservation_status-IsConsistent m h id status
apply-IsConsistent m h (create_signature now s) f = create_signature-IsConsistent m h now s
apply-IsConsistent m h (put_object key bytes) f =
    unfold Signatures.put_object in unindexed m h m.audit _
apply-IsConsistent m h (put_object_from key none) f = unfold Signatures.put_object_from in h
apply-IsConsistent m h (put_object_from key (some bytes)) f =
    unfold Signatures.put_object_from in unindexed m h m.audit _
apply-IsConsistent m h (append fresh now ev) f =
    unfold Signatures.append in unindexed m h _ m.objects

-- Every state that the methods reach from a consistent one, where accounts and certificates are created
-- under ids that are not in use, is consistent.
pub Reach-IsConsistent : {m n : Memory} → IsConsistent m → Reach m n → IsConsistent n
Reach-IsConsistent h here = h
Reach-IsConsistent h (next r op fresh) = apply-IsConsistent _ (Reach-IsConsistent h r) op fresh
