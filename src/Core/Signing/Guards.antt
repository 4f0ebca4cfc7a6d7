-- ===== src/Core/Signing/Guards.antt =====
-- What must hold for a PDF to be signed.
use ttd_elektronik.Prelude.{
  ℕ, ◌≤◌, true, Option, List, [], ◌∷◌, ok, ◌≡◌, arith, length, Option-cases, Result-cases, inl, inr,
}
use ttd_elektronik.Store.Types.{Bytes}
use ttd_elektronik.Core.Certutil.{X509, Certificate, parse_chain_pem, has_document_signing_eku}
use ttd_elektronik.Core.Keys.{Keyring, parse_pkcs8, same_key_pair}
use ttd_elektronik.Core.Signing.{
  Options, PdfSigner, Signed, Appearance, written, max_pdf_bytes, sign_pdf, sign_inner, spec,
  widget,
}

-- What a signed document was made from.
pub record IsSigned (x : X509) (k : Keyring) (p : PdfSigner) (now : ℕ) (pdf pkcs8 chain : Bytes)
    (o : Options) (s : Signed) : Type 0 where
  pub sk : Bytes
  pub leaf : Certificate
  pub intermediates : List Certificate
  pub w : Option (Appearance × ℕ)
  pub within : length pdf ≤ max_pdf_bytes
  pub keyed : parse_pkcs8 x k pkcs8 ≡ ok sk
  pub chained : parse_chain_pem x chain ≡ ok (leaf ∷ intermediates)
  pub paired :
      same_key_pair x k sk (record { bytes = leaf.public_key; is_mldsa = leaf.is_mldsa }) ≡ true
  pub document_signing : has_document_signing_eku leaf ≡ true
  pub made : p.run pdf (spec x k p now sk leaf intermediates o w) ≡ written s.signed_pdf
  pub hashed : s.signed_sha512 ≡ p.sha512_hex s.signed_pdf
  pub bound : s.public_id ≡ o.public_id

-- A document is signed only within the size limit, with the key that the first certificate of the chain
-- certifies for document signing, and with the public id as its contact.
pub sign_pdf-IsSigned :
    (x : X509) (k : Keyring) (p : PdfSigner) (now : ℕ) (pdf pkcs8 chain : Bytes) (o : Options)
    (s : Signed)
    → sign_pdf x k p now pdf pkcs8 chain o ≡ ok s
    → IsSigned x k p now pdf pkcs8 chain o s
unfolding sign_pdf sign_inner
sign_pdf-IsSigned x k p now [] pkcs8 chain o s e = absurd (ground arith)
sign_pdf-IsSigned x k p now (b ∷ bs) pkcs8 chain o s e =
    elim (Result-cases (parse_pkcs8 x k pkcs8)) [
      | inr (why, failed) ↦ absurd (ground arith)
      | inl (sk, keyed) ↦ elim (Result-cases (parse_chain_pem x chain)) [
        | inr (why, failed) ↦ absurd (ground arith)
        | inl ([], chained) ↦ absurd (ground arith)
        | inl (leaf ∷ intermediates, chained) ↦ elim (Option-cases (widget x k p now leaf o)) [
          | inl no_widget ↦ absurd (ground arith)
          | inr (w, drawn) ↦ record {
            sk = sk;
            leaf = leaf;
            intermediates = intermediates;
            w = w;
            within = ground arith;
            keyed = keyed;
            chained = chained;
            paired = ground arith;
            document_signing = ground arith;
            made = ground arith;
            hashed = ground arith;
            bound = ground arith;
          }
        ]
      ]
    ]
