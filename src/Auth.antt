-- ===== src/Auth.antt =====
-- server/internal/auth/auth.go: bearer tokens. What HMAC-SHA-256, base64 and JSON do with the server's
-- secret is the parameter Codec; password hashing is the interface Api.Types.Passwords.
pub mod Tokens
use ttd_elektronik.Prelude.{
  ℕ, ◌+◌, ◌*◌, ◌/◌, String, ◌&◌, true, not, Option, none, some, List, [], ◌∷◌, ◌==◌, ◌≡◌,
  if◌then◌else◌, eqb, leb, dotless, split_dots,
}
use ttd_elektronik.Api.Types.{Claims}

-- `header` is the encoded header, `encode` is `b64json` of claims, `decode` the two steps that read
-- them, `mac` is the signer's.
pub record Codec : Type 0 where
  pub header : String
  pub encode : Claims → String
  pub decode : String → Option Claims
  pub mac : String → String

-- What the code relies on, for one set of claims: base64 has no dot, and what was encoded is read
-- back.
pub record IsFaithful (k : Codec) (c : Claims) : Type 0 where
  pub header_dotless : dotless k.header ≡ true
  pub encode_dotless : dotless (k.encode c) ≡ true
  pub mac_dotless : dotless (k.mac (k.header & "." & k.encode c)) ≡ true
  pub decode_encode : k.decode (k.encode c) ≡ some c

abbrev pub second : ℕ
second = 1000000000

-- `NewSigner`: the time to live; a negative one is not modelled.
unfoldable pub signer_ttl : ℕ → ℕ
signer_ttl ttl = if eqb ttl 0 then 15 * 60 * second else ttl

abbrev pub claims_for : ℕ → ℕ → String → String → Claims
claims_for now ttl account role = record {
  sub = account;
  role = role;
  exp = (now + ttl) / second;
  iat = now / second;
}

module _ (k : Codec) where
  -- `Signer.Issue`; `now` is in nanoseconds, as the clock reads.
  unfoldable pub issue : ℕ → ℕ → String → String → String
  issue now ttl account role =
      let signing = k.header & "." & k.encode (claims_for now ttl account role) in
      signing & "." & k.mac signing

  abbrev pub check : ℕ → String → String → String → Option Claims
  check now header payload mac =
      if not (mac == k.mac (header & "." & payload)) then none else elim (k.decode payload) [
        | none ↦ none
        | some c ↦ if leb c.exp (now / second) then none else some c
      ]

  abbrev pub parse_parts : ℕ → List String → Option Claims
  parse_parts now (h ∷ p ∷ m ∷ []) = check now h p m
  parse_parts now _ = none

  -- `Signer.Parse`; each error is `ErrInvalidToken`.
  unfoldable pub parse : ℕ → String → Option Claims
  parse now token = parse_parts now (split_dots token)
