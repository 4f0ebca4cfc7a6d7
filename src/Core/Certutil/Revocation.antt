-- ===== src/Core/Certutil/Revocation.antt =====
-- `ValidateCRL`: which certificates a revocation list revokes, and whose signature was checked.
use ttd_elektronik.Prelude.{
  ℕ, true, false, Option, none, some, List, [], ◌∷◌, ok, ◌≡◌, ◌≢◌, ◌↔◌, arith, In, inl, inr, ◌⊎◌,
  Option-cases,
}
use ttd_elektronik.Store.Types.{Bytes}
use ttd_elektronik.Core.Certutil.{
  Certificate, Crl, CrlStatus, X509, validate_crl, revocation_of, der_of,
}

abbrev pub Lists : Crl → ℕ → Type 0
Lists crl serial = (at : ℕ) × In (serial, at) crl.entries

revocation_of-In :
    (serial at : ℕ) (es : List (ℕ × ℕ)) → revocation_of serial es ≡ some at → In (serial, at) es
revocation_of-In serial at [] e = cc
revocation_of-In serial at ((n, t) ∷ es) e = ground (arith, revocation_of-In serial at es)

In-revocation_of :
    (serial at : ℕ) (es : List (ℕ × ℕ)) → In (serial, at) es → revocation_of serial es ≢ none
In-revocation_of serial at [] i e = elim i [ ]
In-revocation_of serial at ((n, t) ∷ es) i e = ground (arith, In-revocation_of serial at es)

module _ (x : X509) (bytes : Bytes) (issuer : Option Certificate) (target : Certificate) (now : ℕ)
    (crl : Crl) (parsed : x.parse_crl (der_of x bytes) ≡ some crl) (st : CrlStatus) where
  -- With no issuer no signature is checked, and the status says so; with one, it signed the list.
  validate_crl-signed :
      validate_crl x bytes issuer target now ≡ ok st
      → (st.signature_ok ≡ false) × (issuer ≡ none)
        ⊎ (st.signature_ok ≡ true)
          × ((i : Certificate) × (issuer ≡ some i) × (x.signed_by crl i ≡ true))
  unfolding validate_crl
  validate_crl-signed e = elim (Option-cases issuer) [
    | inl no_issuer ↦ inl (ground (arith, Option-cases (revocation_of target.serial crl.entries)))
    | inr (i, given) ↦ inr (
      ground (arith, Option-cases (revocation_of target.serial crl.entries)),
      (i, given, ground arith),
    )
  ]

  -- A list that is accepted revokes the target exactly if it has an entry with its serial; and its
  -- signature was checked exactly if the caller named the issuer.
  pub validate_crl-exact :
      validate_crl x bytes issuer target now ≡ ok st
      → ((st.revoked ≡ true) ↔ Lists crl target.serial)
        × ((st.signature_ok ≡ false) × (issuer ≡ none)
            ⊎ (st.signature_ok ≡ true)
              × ((i : Certificate) × (issuer ≡ some i) × (x.signed_by crl i ≡ true)))
  unfolding validate_crl
  validate_crl-exact e = (
    (
      λ r. elim (Option-cases (revocation_of target.serial crl.entries)) [
        | inl absent ↦ absurd (ground arith)
        | inr (at, found) ↦ (at, revocation_of-In target.serial at crl.entries found)
      ],
      λ (at, i). ground (
        arith,
        Option-cases (revocation_of target.serial crl.entries),
        In-revocation_of target.serial at crl.entries i,
      ),
    ),
    validate_crl-signed e,
  )
