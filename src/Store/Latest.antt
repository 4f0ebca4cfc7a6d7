-- ===== src/Store/Latest.antt =====
-- `CertificateByDevice`: the certificate of a device that starts last.
use ttd_elektronik.Prelude.{
  ℕ, ◌≤◌, String, Option, none, some, List, [], ◌∷◌, get, values, get-In, In-get, In, Ranging, ok,
  ◌≡◌, ◌≢◌, eq_iff, arith, Option-cases, inl, inr, ◌⊎◌,
}
use ttd_elektronik.Store.Types.{Certificate}
use ttd_elektronik.Store.Memory.{Memory}
use ttd_elektronik.Store.Certificates.{
  certificate_by_device, latest_certificate, newer_certificate, certificate,
}
use ttd_elektronik.Store.Invariant.{IsConsistent}

-- The earliest start that a best candidate so far may be beaten by.
abbrev start_of : Option Certificate → ℕ
start_of none = 0
start_of (some c) = c.not_before

newer_certificate-some :
    (device : String) (latest : Option Certificate) (d : Certificate)
    → d.device_id ≡ device
    → newer_certificate device latest d ≢ none
newer_certificate-some device none d e = ground (arith, eq_iff d.device_id device)
newer_certificate-some device (some l) d e = ground (arith, eq_iff d.device_id device)

latest_certificate_sound :
    (device : String) (latest : Option Certificate) (cs : List Certificate) (c : Certificate)
    → latest_certificate device latest cs ≡ some c
    → (latest ≡ some c) ⊎ (In c cs × (c.device_id ≡ device))
latest_certificate_sound device latest [] c e = inl e
latest_certificate_sound device none (d ∷ ds) c e = ground (
  arith,
  eq_iff d.device_id device,
  latest_certificate_sound device (newer_certificate device none d) ds c,
)
latest_certificate_sound device (some l) (d ∷ ds) c e = ground (
  arith,
  eq_iff d.device_id device,
  latest_certificate_sound device (newer_certificate device (some l) d) ds c,
)

latest_certificate-ge :
    (device : String) (latest : Option Certificate) (cs : List Certificate) (c : Certificate)
    → latest_certificate device latest cs ≡ some c
    → start_of latest ≤ c.not_before
latest_certificate-ge device latest [] c e = ground arith
latest_certificate-ge device none (d ∷ ds) c e = omega arith
latest_certificate-ge device (some l) (d ∷ ds) c e =
    ground (arith, latest_certificate-ge device (newer_certificate device (some l) d) ds c)

latest_certificate-max :
    (device : String) (latest : Option Certificate) (cs : List Certificate) (c d : Certificate)
    → latest_certificate device latest cs ≡ some c
    → In d cs
    → d.device_id ≡ device
    → d.not_before ≤ c.not_before
latest_certificate-max device latest [] c d e i same = elim i [ ]
latest_certificate-max device none (b ∷ bs) c d e i same = ground (
  arith,
  eq_iff b.device_id device,
  eq_iff d.device_id device,
  latest_certificate-ge device (newer_certificate device none b) bs c,
  latest_certificate-max device (newer_certificate device none b) bs c d,
)
latest_certificate-max device (some l) (b ∷ bs) c d e i same = ground (
  arith,
  eq_iff b.device_id device,
  eq_iff d.device_id device,
  latest_certificate-ge device (newer_certificate device (some l) b) bs c,
  latest_certificate-max device (newer_certificate device (some l) b) bs c d,
)

latest_certificate-none :
    (device : String) (latest : Option Certificate) (cs : List Certificate) (d : Certificate)
    → latest_certificate device latest cs ≡ none
    → (latest ≡ none) × (In d cs → d.device_id ≢ device)
latest_certificate-none device latest [] d e = (e, λ i same. i)
latest_certificate-none device none (b ∷ bs) d e = ground (
  arith,
  eq_iff b.device_id device,
  eq_iff d.device_id device,
  latest_certificate-none device (newer_certificate device none b) bs d,
)
latest_certificate-none device (some l) (b ∷ bs) d e = ground (
  arith,
  eq_iff b.device_id device,
  latest_certificate-none device (newer_certificate device (some l) b) bs d,
)

module _ (r : Ranging) (m : Memory) (h : IsConsistent m) (device : String) where
  latest_certificate-registered :
      (c : Certificate)
      → latest_certificate device none (r.range Certificate (values m.certificates)) ≡ some c
      → (certificate c.id m ≡ ok c) × (c.device_id ≡ device)
  unfolding certificate
  latest_certificate-registered c e =
      elim (latest_certificate_sound device none (r.range Certificate (values m.certificates)) c
        e) [
          | inl never ↦ cc
          | inr (i, mine) ↦
              let found =
                In-get (λ x. x.id) m.certificates c h.certificates_keyed
                  (r.range_only Certificate c _ i) in
              (rw (found, certificate), mine)
        ]

  certificate-In :
      (k : String) (d : Certificate)
      → certificate k m ≡ ok d
      → In d (r.range Certificate (values m.certificates))
  unfolding certificate
  certificate-In k d e =
      r.range_visits Certificate d _ (
        get-In (λ x. x.id) m.certificates k d (ground (arith, Option-cases (get m.certificates k))))

  -- In a consistent store, where the device has a registered certificate, the search finds one
  -- that is registered for the device and starts no earlier than the given one.
  pub certificate_by_device-latest :
      (k : String) (d : Certificate)
      → certificate k m ≡ ok d
      → d.device_id ≡ device
      → (c : Certificate) × (certificate_by_device r device m ≡ ok c)
        × (certificate c.id m ≡ ok c)
        × (c.device_id ≡ device)
        × (d.not_before ≤ c.not_before)
  unfolding certificate_by_device
  certificate_by_device-latest k d registered same =
      elim (Option-cases
        (latest_certificate device none (r.range Certificate (values m.certificates)))) [
          | inl e ↦
              absurd
                ((latest_certificate-none device none _ d e).1 (certificate-In k d registered) same)
          | inr (c, e) ↦
              let (found, mine) = latest_certificate-registered c e in
              (
                c,
                rw (e, certificate_by_device),
                found,
                mine,
                latest_certificate-max device none _ c d e (certificate-In k d registered) same,
              )
        ]
