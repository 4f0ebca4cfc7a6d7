-- ===== src/Core/Labpki/Listed.antt =====
-- What the authority lists as revoked is what a reader of the list finds.
use ttd_elektronik.Prelude.{
  ℕ, true, some, List, [], ◌∷◌, ok, ◌≡◌, ◌↔◌, arith, Option-cases, inl, inr, map, ap, sym, refl,
  ◌∙◌,
}
use ttd_elektronik.Store.Types.{Bytes}
use ttd_elektronik.Core.Certutil.{X509, Crl, Block, der_of}
use ttd_elektronik.Core.Certutil.Revocation.{Lists}
use ttd_elektronik.Core.Keys.{Keyring}
use ttd_elektronik.Core.Labpki.{Ca, RevokedEntry, Pki, list_entry, list_template, new_crl_detailed}
use ttd_elektronik.Core.Labpki.Issued.{Names, IsFaithful, IsPaired}

module _ (x : X509) (k : Keyring) (p : Pki) (now : ℕ) where
  Names-entries :
      (n : ℕ) (es : List RevokedEntry) → Names (map (list_entry x k p now) es) n ↔ Names es n
  Names-entries n [] = (λ (e, i, s). elim i [ ], λ (e, i, s). elim i [ ])
  Names-entries n (r ∷ es) = (
    λ (e, i, s). elim i [
      | inl same ↦ (r, inl refl, ap (λ y. y.serial) (sym same) ∙ s)
      | inr later ↦ let (e', i', s') = (Names-entries n es).0 (e, later, s) in (e', inr i', s')
    ],
    λ (e, i, s). elim i [
      | inl same ↦ (list_entry x k p now r, inl refl, ap (λ y. y.serial) (sym same) ∙ s)
      | inr later ↦ let (e', i', s') = (Names-entries n es).1 (e, later, s) in (e', inr i', s')
    ],
  )

  -- The list that is published reads back, is signed by the authority, and has exactly the serials that it was given.
  pub new_crl_detailed-Lists :
      IsFaithful x k p
      → (ca : Ca) (es : List RevokedEntry) (number validity : ℕ) (pem : Bytes) → IsPaired k ca
      → new_crl_detailed x k p now ca es number validity ≡ ok pem
      → (crl : Crl) × (x.parse_crl (der_of x pem) ≡ some crl)
        × (x.signed_by crl ca.cert ≡ true)
        × ((n : ℕ) → Lists crl n ↔ Names es n)
  unfolding new_crl_detailed
  new_crl_detailed-Lists faithful ca es number validity pem paired e =
      elim (Option-cases
        (p.create_list (list_template x k p now es number validity) ca.cert ca.key)) [
          | inl failed ↦ absurd (ground arith)
          | inr (der, made) ↦
              let (crl, read, signed, listed) =
                faithful.list (list_template x k p now es number validity) ca.cert ca.key der paired
                  made in
              let block : Block = record { type = "X509 CRL"; bytes = der } in
              let written : k.encode_pem block ≡ pem = ground arith in
              (
                crl,
                rw (← written, faithful.pem block, der_of) read,
                signed,
                λ n. (
                  λ l. (Names-entries n es).0 ((listed n).0 l),
                  λ m. (listed n).1 ((Names-entries n es).1 m),
                ),
              )
        ]
