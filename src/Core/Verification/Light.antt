-- ===== src/Core/Verification/Light.antt =====
-- verify.go: `ListPDFSignatures`, the signatures of a document without a verdict on them. How the parser
-- ends, trusting each signature's own certificate, is given.
use ttd_elektronik.Prelude.{none, some, List, [], ◌∷◌, Result, ok, err}
use ttd_elektronik.Core.Certutil.{X509, CertInfo, describe}
use ttd_elektronik.Core.Verification.{
  PdfSignature, Parse, unopened, misbuilt, parsed, panics, hangs, Failure, cannot_open, panicked,
  timed_out,
}

module _ (x : X509) where
  abbrev infos : List PdfSignature → List CertInfo
  infos [] = []
  infos (s ∷ ss) =
      let rest = infos ss in elim s.certificate [ none ↦ rest | some c ↦ describe x c ∷ rest ]

  -- A hang is not bounded here; it is given up as a time-out.
  unfoldable pub list_pdf_signatures : Parse → Result Failure (List CertInfo)
  list_pdf_signatures (unopened e) = err (cannot_open e)
  list_pdf_signatures (misbuilt e) = ok []
  list_pdf_signatures (parsed ss) = ok (infos ss)
  list_pdf_signatures panics = err panicked
  list_pdf_signatures hangs = err timed_out
