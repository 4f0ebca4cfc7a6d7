-- ===== src/Prelude/Texts.antt =====
-- Texts: concatenation, defaults and prefixes.
use Prim.Native.Nat.{ℕ, ◌+◌}
use Prim.Native.Char.{Char, code}
use Prim.Native.String
use Prim.Native.String.{String, [], ◌∷◌}
use mathlib.Core.Path.{◌≡◌}
use mathlib.Core.Logic.{◌≢◌}
use mathlib.Core.Option.{Option, none, some}
use native.Mathlib.Omega.{arith}
use text.Mathlib.Text.{◌==◌}
use text.Mathlib.TextEquality.{Char-path}
use text.Mathlib.TextLemmas.{nil-append, cons-append}
use mathlib.Core.Bool.{Bool, ◌&&◌, ◌||◌}
use ttd_elektronik.Prelude.Tests.{if◌then◌else◌, eqb, leb, ltb}

infixr 65 ◌&◌
-- `s + t`
abbrev pub ◌&◌ : String → String → String
s & t = String.◌++◌ s t

-- `if s == "" { s = t }`
abbrev pub or_else : String → String → String
or_else s t = if s == "" then t else s

-- `strings.CutPrefix(s, p)`
unfoldable pub strip_prefix : String → String → Option String
strip_prefix [] s = some s
strip_prefix (c ∷ p) [] = none
strip_prefix (c ∷ p) (d ∷ s) = if eqb (code c) (code d) then strip_prefix p s else none

-- `strings.TrimPrefix(s, p)`
unfoldable pub strip_or_self : String → String → String
unfolding strip_prefix
strip_or_self p s = elim (strip_prefix p s) [ none ↦ s | some rest ↦ rest ]

pub strip_prefix_sound : (p s rest : String) → strip_prefix p s ≡ some rest → s ≡ p & rest
unfolding strip_prefix
strip_prefix_sound [] s rest e = rw nil-append (ground arith)
strip_prefix_sound (c ∷ p) [] rest e = cc
strip_prefix_sound (c ∷ p) (d ∷ s) rest e =
    rw cons-append (ground (arith, strip_prefix_sound p s rest, Char-path c d))

pub strip_prefix-append : (p s : String) → strip_prefix p (p & s) ≡ some s
unfolding strip_prefix
strip_prefix-append [] s = rw nil-append
strip_prefix-append (c ∷ p) s = rw (cons-append, strip_prefix-append p s) (ground arith)

pub strip_or_self-none : (p s : String) → strip_prefix p s ≡ none → strip_or_self p s ≡ s
unfolding strip_or_self
strip_or_self-none p s e = ground arith

pub strip_or_self-some :
    (p s rest : String) → strip_prefix p s ≡ some rest → strip_or_self p s ≡ rest
unfolding strip_or_self
strip_or_self-some p s rest e = ground arith

-- `len(s)`: the bytes of the UTF-8 encoding.
abbrev width : ℕ → ℕ
width n = if ltb n 0x80 then 1 else if ltb n 0x800 then 2 else if ltb n 0x10000 then 3 else 4

unfoldable pub byte_length : String → ℕ
byte_length [] = 0
byte_length (c ∷ s) = width (code c) + byte_length s

-- `unicode.IsSpace`
abbrev is_space : Char → Bool
is_space c =
    let n = code c in
    leb 9 n && leb n 13
    || eqb n 0x20
    || eqb n 0x85
    || eqb n 0xa0
    || eqb n 0x1680
    || leb 0x2000 n && leb n 0x200a
    || eqb n 0x2028
    || eqb n 0x2029
    || eqb n 0x202f
    || eqb n 0x205f
    || eqb n 0x3000

-- `strings.TrimSpace(s)`
unfoldable pub trim_left : String → String
trim_left [] = []
trim_left (c ∷ s) = let rest = trim_left s in if is_space c then rest else c ∷ s

unfoldable pub trim_right : String → String
trim_right [] = []
trim_right (c ∷ s) = let rest = trim_right s in if is_space c && rest == [] then [] else c ∷ rest

unfoldable pub trim_space : String → String
unfolding trim_left trim_right
trim_space s = trim_right (trim_left s)

-- A text in front of which a character stands is not empty.
pub append-nonempty : (c : Char) (s t : String) → ((c ∷ s) & t) ≢ ""
append-nonempty c s t e = let e' = rw cons-append at e in cc
