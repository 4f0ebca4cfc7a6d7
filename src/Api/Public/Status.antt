-- ===== src/Api/Public/Status.antt =====
-- What the public sees of a signature whose certificate was revoked, and who may fetch a document.
use ttd_elektronik.Prelude.{
  String, ◌&◌, true, some, ok, err, ◌==◌, if◌then◌else◌, Ranging, ◌≡◌, ◌≢◌, ◌↔◌, refl, ap, ◌∙◌,
  arith, eq_iff, eq_refl, get, get-put, Result-cases, Bool-cases, inl, inr,
}
use ttd_elektronik.Store.Types.{
  Bytes, Device, Certificate, Signature, AuditEvent, Error, not_found, cert_revoked,
  verification_stored_only, event,
}
use ttd_elektronik.Store.Memory.{Memory}
use ttd_elektronik.Store.Certificates.{
  certificate, certificate_by_serial, revoke_certificate, revoked,
}
use ttd_elektronik.Store.Signatures.{append, signature, get_object}
use ttd_elektronik.Store.Search.{certificate_by_serial_sound, certificate_by_serial_complete}
use ttd_elektronik.Store.Ops.{apply, Op}
use ttd_elektronik.Store.Invariant.{IsConsistent}
use ttd_elektronik.Store.Invariant.Preserved.{apply-IsConsistent}
use ttd_elektronik.Api.Types.{Claims, Draw, file}
use ttd_elektronik.Api.Server.{Server}
use ttd_elektronik.Api.Enrollment.{h_revoke}
use ttd_elektronik.Api.Public.{signature_owned_by, h_download, certificate_status, is_revoked}

certificate_by_serial-fails :
    (r : Ranging) (serial : String) (m : Memory) (e : Error)
    → certificate_by_serial r serial m ≡ err e
    → certificate_by_serial r serial m ≡ err not_found
unfolding certificate_by_serial
certificate_by_serial-fails r serial m e h = ground arith

-- The search by serial finds a revoked certificate that alone has its serial.
pub certificate_by_serial-revoked :
    (r : Ranging) (m : Memory) (t : Certificate)
    → IsConsistent m
    → certificate t.id m ≡ ok t
    → t.status ≡ cert_revoked
    → ((c : Certificate) → certificate c.id m ≡ ok c → c.serial ≡ t.serial → c.id ≡ t.id)
    → is_revoked (certificate_by_serial r t.serial m) ≡ true
certificate_by_serial-revoked r m t h there ended alone =
    elim (Result-cases (certificate_by_serial r t.serial m)) [
      | inr (e, failed) ↦ absurd (
          certificate_by_serial_complete r m h t.serial t.id t there refl
            (certificate_by_serial-fails r t.serial m e failed))
      | inl (c, found) ↦
          let (held, serial) = certificate_by_serial_sound r m h t.serial c found in
          let same = alone c held serial in
          let one : c ≡ t = cc (held, there, ap (λ k. certificate k m) same) in
          rw found
            ((eq_iff c.status cert_revoked).1 (ap (λ (b : Certificate). b.status) one ∙ ended))
    ]

module _ (r : Ranging) (m : Memory) (h : IsConsistent m) (d : Device) (sig : Signature) where
  -- The public record calls a signature that the server checked revoked where its serial leads to a
  -- revoked certificate, whatever the state of the device.
  certificate_status-revoked :
      sig.verification_status ≢ verification_stored_only
      → is_revoked (certificate_by_serial r sig.cert_serial m) ≡ true
      → certificate_status r sig d m ≡ "revoked"
  unfolding certificate_status
  certificate_status-revoked checked ended =
      ground (arith, eq_iff sig.verification_status verification_stored_only)

module _ (r : Ranging) (d : Draw) (reason : String) (s : Server) (t : Certificate)
    (h : IsConsistent s.st) (there : certificate t.id s.st ≡ ok t)
    (alone : (c : Certificate)
      → certificate c.id s.st ≡ ok c
      → c.serial ≡ t.serial
      → c.id ≡ t.id) where
  abbrev noted : AuditEvent
  noted = event "certificate.revoke" t.account_id t.device_id "ok" (t.serial & " " & reason)

  h_revoke-run :
      (h_revoke d t.id reason s).0.st
      ≡ append (d.id 0) d.now noted (revoke_certificate t.id reason d.now s.st).0
  unfolding h_revoke revoke_certificate certificate
  h_revoke-run =
      let held : get s.st.certificates t.id ≡ some t = ground arith in
      ground (arith, get-put s.st.certificates t.id t.id (revoked reason d.now t), eq_refl t.id)

  h_revoke-IsConsistent : IsConsistent (h_revoke d t.id reason s).0.st
  unfolding apply
  h_revoke-IsConsistent = rw h_revoke-run (
      apply-IsConsistent _ (apply-IsConsistent s.st h (Op.revoke_certificate t.id reason d.now) tt)
        (Op.append (d.id 0) d.now noted) tt)

  h_revoke-certificate :
      (k : String)
      → certificate k (h_revoke d t.id reason s).0.st
        ≡ (if t.id == k then ok (revoked reason d.now t) else certificate k s.st)
  unfolding certificate revoke_certificate append
  h_revoke-certificate k = ground (
    arith,
    h_revoke-run,
    there,
    eq_iff t.id k,
    get-put s.st.certificates t.id k (revoked reason d.now t),
  )

  -- In a consistent store, once a certificate that alone has its serial is revoked, the public
  -- record of every signature with that serial that the server checked says so.
  pub h_revoke-shown :
      (dev : Device) (sig : Signature)
      → sig.verification_status ≢ verification_stored_only
      → sig.cert_serial ≡ t.serial
      → certificate_status r sig dev (h_revoke d t.id reason s).0.st ≡ "revoked"
  h_revoke-shown dev sig checked serial =
      let n = (h_revoke d t.id reason s).0.st in
      certificate_status-revoked r n h_revoke-IsConsistent dev sig checked (
        rw serial (
          certificate_by_serial-revoked r n (revoked reason d.now t) h_revoke-IsConsistent
            (ground (arith, h_revoke-certificate t.id, eq_refl t.id)) refl alone_then))
    where
      alone_then :
          (c : Certificate)
          → certificate c.id (h_revoke d t.id reason s).0.st ≡ ok c
          → c.serial ≡ t.serial
          → c.id ≡ t.id
      alone_then c held same = ground (arith, h_revoke-certificate c.id, eq_iff t.id c.id, alone c)

pub h_download_iff :
    (c : Claims) (id : String) (s : Server) (b : Bytes)
    → ((h_download c id s).1 ≡ record { code = 200; body = file b }) ↔ (
        (sig : Signature) × (signature id s.st ≡ ok sig)
        × (sig.account_id ≡ c.sub)
        × (get_object sig.storage_object_key s.st ≡ ok b))
unfolding h_download signature_owned_by
h_download_iff c id s b = elim (Result-cases (signature id s.st)) [
  | inr (e, unknown) ↦ ground arith
  | inl (sig, found) ↦ elim (Bool-cases (sig.account_id == c.sub)) [
    | inr foreign ↦ ground (arith, eq_iff sig.account_id c.sub)
    | inl own ↦ elim (Result-cases (get_object sig.storage_object_key s.st)) [
      | inr (e, missing) ↦ ground (arith, eq_iff sig.account_id c.sub)
      | inl (content, held) ↦
          (λ e. (sig, found, (eq_iff _ _).0 own, ground arith), λ (u, f, mine, get). ground arith)
    ]
  ]
]
