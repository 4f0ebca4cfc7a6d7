-- ===== src/Auth/Tokens.antt =====
-- What a token is good for: it is read back until it expires, and what is read was signed.
use text.Mathlib.TextLemmas.{append_assoc}
use ttd_elektronik.Prelude.{
  ℕ, ◌+◌, ◌/◌, ◌<◌, String, ◌&◌, true, none, some, List, [], ◌∷◌, ◌≡◌, ap, ◌∙◌, if◌then◌else◌, leb,
  dotless, split_dots, split_dots-dotless, split_dots-first, arith, eq_iff, eq_refl,
}
use ttd_elektronik.Api.Types.{Claims}
use ttd_elektronik.Auth.{Codec, IsFaithful, second, claims_for, issue, parse, parse_parts}

split_dots-three :
    (h p m : String)
    → dotless h ≡ true
    → dotless p ≡ true
    → dotless m ≡ true
    → split_dots ((h & "." & p) & "." & m) ≡ h ∷ p ∷ m ∷ []
split_dots-three h p m no_h no_p no_m =
    ap split_dots
      (append_assoc h ("." & p) ("." & m) ∙ ap (λ s. h & s) (append_assoc "." p ("." & m)))
    ∙ split_dots-first h (p & "." & m) no_h
    ∙ ap (λ l. h ∷ l) (split_dots-first p m no_p ∙ ap (λ l. p ∷ l) (split_dots-dotless m no_m))

module _ (k : Codec) (now ttl : ℕ) (account role : String)
    (faithful : IsFaithful k (claims_for now ttl account role)) where
  -- A token has three parts.
  pub issue-split :
      split_dots (issue k now ttl account role)
      ≡ k.header
        ∷ k.encode (claims_for now ttl account role)
        ∷ k.mac (k.header & "." & k.encode (claims_for now ttl account role))
        ∷ []
  unfolding issue
  issue-split =
      split_dots-three k.header (k.encode (claims_for now ttl account role)) _
        faithful.header_dotless faithful.encode_dotless faithful.mac_dotless

  -- A token is read back as its claims until the second in which it expires, and never after.
  pub parse-issue :
      (later : ℕ)
      → parse k later (issue k now ttl account role) ≡ (
          if leb ((now + ttl) / second) (later / second)
          then none
          else some (claims_for now ttl account role))
  unfolding parse
  parse-issue later =
      let c = claims_for now ttl account role in
      let signing = k.header & "." & k.encode c in
      rw (issue-split, parse) (ground (arith, eq_refl (k.mac signing), faithful.decode_encode))

parse_parts_sound :
    (k : Codec) (now : ℕ) (parts : List String) (c : Claims)
    → parse_parts k now parts ≡ some c
    → (header : String) × (payload : String) × (parts
        ≡ header ∷ payload ∷ k.mac (header & "." & payload) ∷ [])
      × (k.decode payload ≡ some c)
      × (now / second < c.exp)
parse_parts_sound k now [] c e = absurd (ground arith)
parse_parts_sound k now (h ∷ []) c e = absurd (ground arith)
parse_parts_sound k now (h ∷ p ∷ []) c e = absurd (ground arith)
parse_parts_sound k now (h ∷ p ∷ m ∷ n ∷ l) c e = absurd (ground arith)
parse_parts_sound k now (h ∷ p ∷ m ∷ []) c e =
    let same : m ≡ k.mac (h & "." & p) = ground (arith, eq_iff m (k.mac (h & "." & p))) in
    (h, p, ap (λ x. h ∷ p ∷ x ∷ []) same, ground arith, ground arith)

-- Claims are read only from a token whose third part is the MAC of the first two, and before they
-- expire.
pub parse_sound :
    (k : Codec) (now : ℕ) (token : String) (c : Claims)
    → parse k now token ≡ some c
    → (header : String) × (payload : String) × (split_dots token
        ≡ header ∷ payload ∷ k.mac (header & "." & payload) ∷ [])
      × (k.decode payload ≡ some c)
      × (now / second < c.exp)
unfolding parse
parse_sound k now token c e = parse_parts_sound k now (split_dots token) c e
