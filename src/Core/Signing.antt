-- ===== src/Core/Signing.antt =====
-- core/signing/sign.go and appearance.go: signing a PDF on the device. The third-party signer and its
-- parser are the parameter `PdfSigner`; what it is asked to do is a `Spec`. Positions of the visible
-- widget and its fonts are left out.
pub mod Guards
use Prim.Native.Char.{Char, code}
use Prim.Native.String.{String, [], ◌∷◌}
use ttd_elektronik.Prelude.{
  ℕ, zero, suc, ◌*◌, ◌^◌, ◌&◌, Bool, true, false, not, ◌&&◌, ◌||◌, Option, none, some, List, ◌++◌,
  Result, ok, err, if◌then◌else◌, ◌==◌, eqb, ltb, leb, length, or_else, byte_length,
}
use ttd_elektronik.Store.Types.{Bytes}
use ttd_elektronik.Core.Certutil
use ttd_elektronik.Core.Certutil.{
  X509, Certificate, parse_chain_pem, has_document_signing_eku, fingerprint_sha256,
}
use ttd_elektronik.Core.Keys
use ttd_elektronik.Core.Keys.{Keyring, parse_pkcs8, same_key_pair}

pub record Options : Type 0 where
  pub reason : String
  pub location : String
  pub signer_name : String
  pub public_id : String
  pub verification_url : String
  pub include_qr : Bool
  pub page : ℕ
  pub claimed : ℕ
  pub timeout : ℕ

abbrev pub max_pdf_bytes : ℕ
max_pdf_bytes = 64 * 2 ^ 20

-- The visible block: its lines of text, and what its QR code says.
pub record Appearance : Type 0 where
  pub lines : List String
  pub qr : Option String

-- What the signer is asked for; all is PAdES Baseline-B over SHA-512.
pub record Spec : Type 0 where
  pub key : Bytes
  pub leaf : Certificate
  pub intermediates : List Certificate
  pub signer_name : String
  pub widget : Option (Appearance × ℕ)
  pub reason : String
  pub location : String
  pub contact : String

pub data Outcome : Type 0 where
  unopened unwritten panics hangs : Outcome
  written : Bytes → Outcome

pub record PdfSigner : Type 0 where
  pub run : Bytes → Spec → Outcome
  pub encodes_qr : String → Bool
  pub sha512_hex : Bytes → String
  pub common_name : Certificate → String
  pub format_time : ℕ → String

pub data Failure : Type 0 where
  panicked too_large timed_out empty_input : Failure
  key_refused : Keys.Error → Failure
  chain_refused : Certutil.Error → Failure
  not_mldsa other_key missing_eku no_qr cannot_open cannot_write : Failure

pub record Signed : Type 0 where
  pub signed_pdf : Bytes
  pub original_sha512 : String
  pub signed_sha512 : String
  pub algorithm : String
  pub pdf_profile : String
  pub certificate_serial : String
  pub certificate_fp : String
  pub public_id : String
  pub claimed : ℕ

-- `safeText`
abbrev safe_text : String → String
safe_text [] = []
safe_text (c ∷ s) =
    let rest = safe_text s in if eqb (code c) 10 || eqb (code c) 13 then " " ∷ rest else c ∷ rest

-- `s[:n]` of ASCII text
abbrev first_chars : ℕ → String → String
first_chars zero s = []
first_chars (suc n) [] = []
first_chars (suc n) (c ∷ s) = c ∷ first_chars n s

-- `shorten`
abbrev shorten : String → ℕ → String
shorten s n = if leb (byte_length s) n then s else first_chars n s & "…"

module _ (x : X509) (k : Keyring) (p : PdfSigner) (now : ℕ) where
  abbrev claimed_time : Options → ℕ
  claimed_time o = if eqb o.claimed 0 then now else o.claimed

  abbrev line_if : Bool → String → List String
  line_if true line = List.◌∷◌ line List.[]
  line_if false line = List.[]

  abbrev appearance_lines : Certificate → Options → List String
  appearance_lines leaf o = List.◌∷◌ "Ditandatangani secara digital oleh:" (
      List.◌∷◌ (safe_text (or_else o.signer_name (p.common_name leaf))) (
        List.◌∷◌ "Algoritma: ML-DSA-65" (
          List.◌∷◌ ("No. sertifikat: " & shorten (x.hex leaf.serial) 32) (
            List.◌∷◌ ("Waktu (klaim klien): " & p.format_time (claimed_time o)) (
              line_if (not (o.reason == "")) ("Alasan: " & safe_text o.reason)
              ++ line_if (not (o.public_id == "")) ("ID verifikasi: " & o.public_id))))))

  -- `BuildSignatureAppearance`; `none` is a QR code that cannot be encoded.
  unfoldable pub build_signature_appearance : Certificate → Options → Option Appearance
  build_signature_appearance leaf o =
      let content = or_else o.verification_url o.public_id in
      if o.include_qr && not (content == "")
      then (if p.encodes_qr content
          then some (record { lines = appearance_lines leaf o; qr = some content })
          else none)
      else some (record { lines = appearance_lines leaf o; qr = none })

  -- The widget, where one is wanted; `none` outside is an error.
  abbrev widget : Certificate → Options → Option (Option (Appearance × ℕ))
  widget leaf o = if not o.include_qr then some none else elim (build_signature_appearance leaf o) [
    | none ↦ none
    | some a ↦ some (some (a, if eqb o.page 0 then 1 else o.page))
  ]

  abbrev pub spec :
      Bytes → Certificate → List Certificate → Options → Option (Appearance × ℕ) → Spec
  spec sk leaf intermediates o w = record {
    key = sk;
    leaf = leaf;
    intermediates = intermediates;
    signer_name = or_else o.signer_name (p.common_name leaf);
    widget = w;
    reason = o.reason;
    location = o.location;
    contact = if not (o.public_id == "") then "pqc-public-id:" & o.public_id else "";
  }

  abbrev result_of : Bytes → Certificate → Options → Bytes → Signed
  result_of pdf leaf o out = record {
    signed_pdf = out;
    original_sha512 = p.sha512_hex pdf;
    signed_sha512 = p.sha512_hex out;
    algorithm = "ML-DSA-65";
    pdf_profile = "PAdES_B";
    certificate_serial = x.hex leaf.serial;
    certificate_fp = fingerprint_sha256 x leaf;
    public_id = o.public_id;
    claimed = claimed_time o;
  }

  -- How the signer ends; a hang is given up after the timeout, and without one is not waited for here.
  abbrev ended : Bytes → Certificate → Options → Outcome → Result Failure Signed
  ended pdf leaf o unopened = err cannot_open
  ended pdf leaf o unwritten = err cannot_write
  ended pdf leaf o panics = err panicked
  ended pdf leaf o hangs = err timed_out
  ended pdf leaf o (written out) = ok (result_of pdf leaf o out)

  abbrev sign_with :
      Bytes → Bytes → Certificate → List Certificate → Options → Result Failure Signed
  sign_with pdf sk leaf intermediates o =
      if not leaf.is_mldsa
      then err not_mldsa
      else if not
          (same_key_pair x k sk (record { bytes = leaf.public_key; is_mldsa = leaf.is_mldsa }))
      then err other_key
      else if not (has_document_signing_eku leaf)
      then err missing_eku
      else elim (widget leaf o) [
        | none ↦ err no_qr
        | some w ↦ ended pdf leaf o (p.run pdf (spec sk leaf intermediates o w))
      ]

  -- `signPDF`
  unfoldable pub sign_inner : Bytes → Bytes → Bytes → Options → Result Failure Signed
  sign_inner List.[] pkcs8 chain o = err empty_input
  sign_inner (List.◌∷◌ b bs) pkcs8 chain o = elim (parse_pkcs8 x k pkcs8) [
    | err e ↦ err (key_refused e)
    | ok sk ↦ elim (parse_chain_pem x chain) [
      | err e ↦ err (chain_refused e)
      | ok List.[] ↦ err empty_input
      | ok (List.◌∷◌ leaf intermediates) ↦ sign_with (List.◌∷◌ b bs) sk leaf intermediates o
    ]
  ]

  -- `SignPDF`
  unfoldable pub sign_pdf : Bytes → Bytes → Bytes → Options → Result Failure Signed
  sign_pdf pdf pkcs8 chain o =
      if ltb max_pdf_bytes (length pdf) then err too_large else sign_inner pdf pkcs8 chain o
