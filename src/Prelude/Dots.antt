-- ===== src/Prelude/Dots.antt =====
-- `strings.Split(s, ".")`, and texts without a dot.
use Prim.Native.Char.{Char, code}
use Prim.Native.String.{String, [], ◌∷◌}
use mathlib.Core.Path.{◌≡◌, refl}
use mathlib.Core.Bool.{Bool, true, false}
use mathlib.Core.List.{List}
use native.Mathlib.Omega.{arith}
use text.Mathlib.TextLemmas.{nil-append, cons-append}
use ttd_elektronik.Prelude.Tests.{if◌then◌else◌, eqb}
use ttd_elektronik.Prelude.Texts.{◌&◌}

abbrev is_dot : Char → Bool
is_dot c = eqb (code c) 46

-- No character is a dot.
unfoldable pub dotless : String → Bool
dotless [] = true
dotless (c ∷ s) = if is_dot c then false else dotless s

-- A character in front of the first part.
abbrev onto : Char → List String → List String
onto c List.[] = List.◌∷◌ (c ∷ []) List.[]
onto c (List.◌∷◌ w ws) = List.◌∷◌ (c ∷ w) ws

unfoldable pub split_dots : String → List String
split_dots [] = List.◌∷◌ [] List.[]
split_dots (c ∷ s) = let rest = split_dots s in if is_dot c then List.◌∷◌ [] rest else onto c rest

-- A text without a dot is its only part.
pub split_dots-dotless : (s : String) → dotless s ≡ true → split_dots s ≡ List.◌∷◌ s List.[]
unfolding split_dots dotless
split_dots-dotless [] h = refl
split_dots-dotless (c ∷ s) h = ground (arith, split_dots-dotless s)

-- The part before the first dot.
pub split_dots-first :
    (s t : String) → dotless s ≡ true → split_dots (s & "." & t) ≡ List.◌∷◌ s (split_dots t)
unfolding split_dots dotless
split_dots-first [] t h = rw (nil-append, cons-append, nil-append)
split_dots-first (c ∷ s) t h = rw cons-append (ground (arith, split_dots-first s t))
