-- ===== src/Client/App/Sign/Checked.antt =====
-- What must hold for a document to be signed and submitted.
use ttd_elektronik.Prelude.{
  ℕ, ◌≤◌, String, Bool, true, false, Option, some, [], ◌++◌, Result, ok, err, ◌⊎◌, refl, length,
  ◌≡◌, arith, Bool-cases, Result-cases, inl, inr,
}
use ttd_elektronik.Store.Types.{Bytes}
use ttd_elektronik.Core.Certutil.{X509}
use ttd_elektronik.Core.Keys.{Keyring}
use ttd_elektronik.Core.Signing.{PdfSigner, Signed, sign_pdf}
use ttd_elektronik.Core.Verification
use ttd_elektronik.Core.Verification.{Pdfsign, Parse, Report, verify_pdf}
use ttd_elektronik.CaAdmin.Keyfile.{Sealing}
use ttd_elektronik.Api.Types.{Response}
use ttd_elektronik.Core.Signing.Guards.{IsSigned, sign_pdf-IsSigned}
use ttd_elektronik.Client.Api
use ttd_elektronik.Client.Api.{Call, Reservation, make_reservation, is_too_large}
use ttd_elektronik.Client.Upload.{stamp_document, submit_document}
use ttd_elektronik.Client.Keystore.{Dpapi, Codec}
use ttd_elektronik.Client.Keystore.Vault.{
  StateCodec, load_key, root_pem, chain_pem, device_cert_pem, state_of, Vault,
}
use ttd_elektronik.Client.App.{World}
use ttd_elektronik.Client.App.Sign.{
  Request, SignResult, sign_document, local_options, passes, is_signed, options_for, signed,
  reserved, to_be_signed, local_verify_max_bytes,
}

module _ {S : Type 0} (wire : String → Call → S → S × Option Response) (z : Sealing) (w : Dpapi)
    (j : Codec) (sc : StateCodec) (now : ℕ) (x : X509) (k : Keyring) (p : PdfSigner) (v : Pdfsign)
    (listed : Bytes → Parse) (writes : Bool) where
  abbrev options : Bytes → Bytes → Verification.Options
  options root chain = local_options wire z w j sc now x k p v listed writes root chain []

  -- The bytes that are signed for the document `pdf`: what the server has stamped, or the document
  -- itself where the server has answered that it is too large for a stamp.
  abbrev pub IsChosen : Bytes → Bytes → Result Api.Failure Bytes → Type 0
  IsChosen pdf to_sign stamped =
      (stamped ≡ ok to_sign)
      ⊎ ((why : Api.Failure) × (stamped ≡ err why) × (is_too_large why ≡ true) × (to_sign ≡ pdf))

  -- The certificates and the root in the vault, and whether a signature is read in the document.
  pub record HasPapers (vault : Vault) (pdf root chain cert : Bytes) : Type 0 where
    pub unsigned : is_signed wire z w j sc now x k p v listed writes pdf ≡ false
    pub rooted : root_pem vault ≡ ok root
    pub chained : chain_pem vault ≡ ok chain
    pub certified : device_cert_pem vault ≡ ok cert

  -- What holds of bytes that are signed for a reservation in the world `a`, and of what is shown.
  pub record IsSent (q : Request) (a a' : World S) (root chain cert to_sign : Bytes)
      (res : Reservation) (result : SignResult) : Type 0 where
    pub key : Bytes
    pub s : Signed
    pub opened : load_key z w j q.pin a.vault ≡ ok key
    pub signed :
        IsSigned x k p now to_sign key
          (cert ++ chain)
          (options_for wire z w j sc now x k p v listed writes q res)
          s
    pub verified :
        length s.signed_pdf ≤ local_verify_max_bytes
        → (report : Report) × (verify_pdf x v now s.signed_pdf (options root chain) ≡ ok report)
          × (report.valid ≡ true)
    pub output : result.output ≡ s.signed_pdf
    pub submitted : a' ≡ record a {
      server = (submit_document wire a.client res.public_id s.signed_pdf a.server).0;
    }

  -- What holds of a document that is shown as signed.
  pub record IsChecked (q : Request) (a a' : World S) (pdf : Bytes) (result : SignResult)
      : Type 0 where
    pub root : Bytes
    pub chain : Bytes
    pub cert : Bytes
    pub to_sign : Bytes
    pub res : Reservation
    pub papers : HasPapers a.vault pdf root chain cert
    pub reserved_server : S
    pub reserved :
        make_reservation wire a.client
          (state_of sc a.vault).device_id
          (p.sha512_hex pdf)
          q.file_name
          a.server
        ≡ (reserved_server, ok res)
    pub chosen :
        IsChosen pdf to_sign
          (stamp_document wire a.client res.public_id pdf q.query reserved_server).1
    pub sent :
        IsSent q
          (record a {
            server = (stamp_document wire a.client res.public_id pdf q.query reserved_server).0;
          })
          a'
          root
          chain
          cert
          to_sign
          res
          result

  passes_sound :
      (root chain pdf : Bytes)
      → passes wire z w j sc now x k p v listed writes root chain pdf ≡ ok tt
      → length pdf ≤ local_verify_max_bytes
      → (report : Report) × (verify_pdf x v now pdf (options root chain) ≡ ok report)
        × (report.valid ≡ true)
  passes_sound root chain pdf e small =
      elim (Result-cases (verify_pdf x v now pdf (options root chain))) [
        | inr (why, failed) ↦ absurd (ground arith)
        | inl (report, checked) ↦ (report, checked, ground arith)
      ]

  signed-IsSent :
      (q : Request) (res : Reservation) (pdf to_sign cert chain root : Bytes) (a a' : World S)
      (result : SignResult)
      → signed wire z w j sc now x k p v listed writes q res pdf to_sign cert chain root a
        ≡ (a', ok result)
      → IsSent q a a' root chain cert to_sign res result
  signed-IsSent q res pdf to_sign cert chain root a a' result e =
      let o = options_for wire z w j sc now x k p v listed writes q res in
      elim (Result-cases (load_key z w j q.pin a.vault)) [
        | inr (why, failed) ↦ absurd (ground arith)
        | inl (key, opened) ↦
            elim (Result-cases (sign_pdf x k p now to_sign key (cert ++ chain) o)) [
              | inr (why, failed) ↦ absurd (ground arith)
              | inl (s, made) ↦
                  elim (Result-cases
                    (passes wire z w j sc now x k p v listed writes root chain s.signed_pdf)) [
                      | inr (why, failed) ↦ absurd (ground arith)
                      | inl (u, passed) ↦ record {
                        key = key;
                        s = s;
                        opened = opened;
                        signed = sign_pdf-IsSigned x k p now to_sign key (cert ++ chain) o s made;
                        verified = passes_sound root chain s.signed_pdf passed;
                        output = ground arith;
                        submitted = ground arith;
                      }
                    ]
            ]
      ]

  to_be_signed-IsChosen :
      (pdf to_sign : Bytes) (stamped : Result Api.Failure Bytes)
      → to_be_signed wire z w j sc now x k p v listed writes pdf stamped ≡ ok to_sign
      → IsChosen pdf to_sign stamped
  to_be_signed-IsChosen pdf to_sign (ok stamped) e = inl (ground arith)
  to_be_signed-IsChosen pdf to_sign (err why) e = elim (Bool-cases (is_too_large why)) [
    | inl large ↦ inr (why, refl, large, ground (arith, large))
    | inr other ↦ absurd (ground (arith, other))
  ]

  reserved-IsChecked :
      (q : Request) (pdf cert chain root : Bytes) (a a' : World S) (result : SignResult)
      → HasPapers a.vault pdf root chain cert
      → reserved wire z w j sc now x k p v listed writes q pdf cert chain root a ≡ (a', ok result)
      → IsChecked q a a' pdf result
  reserved-IsChecked q pdf cert chain root a a' result papers e =
      let device = (state_of sc a.vault).device_id in
      let made = make_reservation wire a.client device (p.sha512_hex pdf) q.file_name a.server in
      elim (Result-cases made.1) [
        | inr (why, failed) ↦ absurd (ground arith)
        | inl (res, got) ↦
            let stamped = stamp_document wire a.client res.public_id pdf q.query made.0 in
            let b : World S = record a { server = stamped.0 } in
            elim (Result-cases
              (to_be_signed wire z w j sc now x k p v listed writes pdf stamped.1)) [
                | inr (why, failed) ↦ absurd (ground arith)
                | inl (to_sign, chosen) ↦ record {
                  root = root;
                  chain = chain;
                  cert = cert;
                  to_sign = to_sign;
                  res = res;
                  papers = papers;
                  reserved_server = made.0;
                  reserved = ground (arith, got);
                  chosen = to_be_signed-IsChosen pdf to_sign stamped.1 chosen;
                  sent =
                      signed-IsSent q res pdf to_sign cert chain root b a' result
                        (ground (arith, got, chosen));
                }
              ]
      ]

  -- A document that the app shows as signed is one in which no signature was read. Its hash was
  -- reserved for the device; what is signed is the document as the server has stamped it, or as it is
  -- where the server has answered that it is too large; on at most 64 MiB, with the key in the vault,
  -- which the certificate in the vault certifies. The signed document is what is written and submitted, and it was
  -- found valid against the root in the vault, with ML-DSA signatures only, unless it is over the limit
  -- of the local check.
  pub sign_document-IsChecked :
      (q : Request) (pdf : Bytes) (a a' : World S) (result : SignResult)
      → sign_document wire z w j sc now x k p v listed writes q (some pdf) a ≡ (a', ok result)
      → IsChecked q a a' pdf result
  unfolding sign_document
  sign_document-IsChecked q pdf a a' result e =
      elim (Bool-cases (is_signed wire z w j sc now x k p v listed writes pdf)) [
        | inl already ↦ absurd (ground arith)
        | inr unsigned ↦ elim (Result-cases (chain_pem a.vault)) [
          | inr (why, failed) ↦ absurd (ground arith)
          | inl (chain, chained) ↦ elim (Result-cases (device_cert_pem a.vault)) [
            | inr (why, failed) ↦ absurd (ground arith)
            | inl (cert, held) ↦ elim (Result-cases (root_pem a.vault)) [
              | inr (why, failed) ↦ absurd (ground arith)
              | inl (root, rooted) ↦
                  let papers : HasPapers a.vault pdf root chain cert = record {
                    unsigned = unsigned;
                    rooted = rooted;
                    chained = chained;
                    certified = held;
                  } in
                  reserved-IsChecked q pdf cert chain root a a' result papers (ground arith)
            ]
          ]
        ]
      ]
