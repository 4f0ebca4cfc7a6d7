-- ===== src/Store/Search.antt =====
-- What the searches through the store's maps find, in whatever order the runtime ranges.
use ttd_elektronik.Prelude.{
  String, Option, none, some, List, [], ◌∷◌, get, values, get-key, get-In, In-get, In, In-keep,
  keep-In, sort_by-In, In-sort_by, Ranging, Result, ok, err, ◌≡◌, ◌==◌, eq_iff, arith, Option-cases,
  inl, inr, ◌↔◌, ◌≢◌,
}
use ttd_elektronik.Store.Types.{Account, Certificate, Error, not_found}
use ttd_elektronik.Store.Memory.{Memory}
use ttd_elektronik.Store.Accounts.{account_by_email, account}
use ttd_elektronik.Store.Certificates.{
  certificates_by_account, certificate_before, certificate_by_serial, first_serial, certificate,
}
use ttd_elektronik.Store.Invariant.{IsConsistent}

-- In a consistent store the account found by an email has that email and is the one under its id.
pub account_by_email-account :
    (m : Memory) (email : String) (a : Account)
    → IsConsistent m
    → account_by_email email m ≡ ok a
    → (account a.id m ≡ ok a) × (a.email ≡ email)
unfolding account_by_email account
account_by_email-account m email a h e = elim (Option-cases (get m.by_email email)) [
  | inl missing ↦ ground arith
  | inr (id, found) ↦
      ground (
        arith,
        h.indexed.points email id found,
        get-key (λ x. x.id) m.accounts id a h.indexed.keyed,
      )
]

-- Two accounts of a consistent store that share an email are one.
pub email_unique :
    (m : Memory) (i j : String) (a b : Account)
    → IsConsistent m
    → account i m ≡ ok a
    → account j m ≡ ok b
    → a.email ≡ b.email
    → i ≡ j
unfolding account
email_unique m i j a b h p q e = ground (arith, h.indexed.listed i a, h.indexed.listed j b)

first_serial_sound :
    (serial : String) (c : Certificate) (cs : List Certificate)
    → first_serial serial cs ≡ some c
    → In c cs × (c.serial ≡ serial)
first_serial_sound serial c [] e = cc
first_serial_sound serial c (d ∷ ds) e =
    ground (arith, eq_iff d.serial serial, first_serial_sound serial c ds)

first_serial-none :
    (serial : String) (c : Certificate) (cs : List Certificate)
    → first_serial serial cs ≡ none
    → In c cs
    → c.serial ≢ serial
first_serial-none serial c [] e i = elim i [ ]
first_serial-none serial c (d ∷ ds) e i =
    ground (arith, eq_iff d.serial serial, eq_iff c.serial serial, first_serial-none serial c ds)

module _ (r : Ranging) (m : Memory) (h : IsConsistent m) where
  -- In a consistent store, `CertificatesByAccount` lists exactly the certificates of the account.
  pub certificates_by_account_iff :
      (id : String) (c : Certificate)
      → In c (certificates_by_account r id m) ↔ ((certificate c.id m ≡ ok c) × (c.account_id ≡ id))
  unfolding certificates_by_account certificate
  certificates_by_account_iff id c = (
    λ i.
        let (k, mine) =
          In-keep (λ d. d.account_id == id) c _ (In-sort_by certificate_before c _ i) in
        let found =
          In-get (λ x. x.id) m.certificates c h.certificates_keyed
            (r.range_only Certificate c _ k) in
        (rw (found, certificate), (eq_iff _ _).0 mine),
    λ (found, mine). sort_by-In certificate_before c _ (
        keep-In (λ d. d.account_id == id) c _
          (r.range_visits Certificate c _
            (get-In (λ x. x.id) m.certificates c.id c (of_found (get m.certificates c.id) found)))
          ((eq_iff _ _).1 mine)),
  )
    where
      of_found :
          (o : Option Certificate)
          → ◌≡◌ {A = Result Error Certificate}
              (elim o [ none ↦ err not_found | some d ↦ ok d ])
              (ok c)
          → o ≡ some c
      of_found none e = cc
      of_found (some d) e = ground arith

  -- In a consistent store, a certificate found by its serial is registered, and has that serial.
  pub certificate_by_serial_sound :
      (serial : String) (c : Certificate)
      → certificate_by_serial r serial m ≡ ok c
      → (certificate c.id m ≡ ok c) × (c.serial ≡ serial)
  unfolding certificate_by_serial certificate
  certificate_by_serial_sound serial c e =
      elim (Option-cases (first_serial serial (r.range Certificate (values m.certificates)))) [
        | inl missing ↦ ground arith
        | inr (d, found) ↦
            let (i, same) = first_serial_sound serial d _ found in
            ground (
              arith,
              In-get (λ x. x.id) m.certificates d h.certificates_keyed
                  (r.range_only Certificate d _ i),
            )
      ]

  -- In a consistent store, the search by serial fails only if no registered certificate has the
  -- serial.
  pub certificate_by_serial_complete :
      (serial id : String) (c : Certificate)
      → certificate id m ≡ ok c
      → c.serial ≡ serial
      → certificate_by_serial r serial m ≢ err not_found
  unfolding certificate_by_serial certificate
  certificate_by_serial_complete serial id c e same fails = ground (
    arith,
    first_serial-none serial c (r.range Certificate (values m.certificates)),
    r.range_visits Certificate c (values m.certificates),
    get-In (λ x. x.id) m.certificates id c,
  )
