-- ===== src/Api/Names.antt =====
-- verify.go: the file name that a reservation keeps. `path.Base` and `strings.Map` are written out.
pub mod Safe
use Prim.Native.Nat.{ℕ, zero, suc}
use Prim.Native.Char.{Char, code}
use Prim.Native.String.{String, [], ◌∷◌}
use ttd_elektronik.Prelude.{
  Bool, true, false, not, ◌&&◌, ◌||◌, ◌==◌, if◌then◌else◌, eqb, leb, ltb, byte_length,
}

abbrev is_slash : Char → Bool
is_slash c = eqb (code c) b'/'

-- `strings.ReplaceAll(name, "\\", "/")`
unfoldable pub forward : String → String
forward [] = []
forward (c ∷ s) = let rest = forward s in if eqb (code c) b'\\' then "/" ∷ rest else c ∷ rest

unfoldable pub has_slash : String → Bool
has_slash [] = false
has_slash (c ∷ s) = if is_slash c then true else has_slash s

-- The two steps of `path.Base`: trailing slashes go, then all that is before the last slash.
unfoldable pub strip_slashes : String → String
strip_slashes [] = []
strip_slashes (c ∷ s) =
    let rest = strip_slashes s in if is_slash c && rest == [] then [] else c ∷ rest

unfoldable pub after_slash : String → String
after_slash [] = []
after_slash (c ∷ s) =
    let rest = after_slash s in if has_slash s then rest else if is_slash c then s else c ∷ s

unfoldable pub base : String → String
base [] = "."
base (c ∷ s) = let name = after_slash (strip_slashes (c ∷ s)) in if name == "" then "/" else name

abbrev pub is_safe : Char → Bool
is_safe c =
    let n = code c in
    leb b'a' n && leb n b'z'
    || (leb b'A' n && leb n b'Z')
    || (leb b'0' n && leb n b'9')
    || eqb n b'.'
    || eqb n b'-'
    || eqb n b'_'
    || eqb n b' '

unfoldable pub clean : String → String
clean [] = []
clean (c ∷ s) = let rest = clean s in if is_safe c then c ∷ rest else "_" ∷ rest

-- `name[:n]` of ASCII
unfoldable pub cut : ℕ → String → String
cut zero s = []
cut (suc n) [] = []
cut (suc n) (c ∷ s) = c ∷ cut n s

abbrev fit : String → String
fit name =
    if name == "" || name == "." || name == ".."
    then "document.pdf"
    else if ltb 128 (byte_length name)
    then cut 128 name
    else name

-- `sanitizeName`
unfoldable pub sanitize_name : String → String
sanitize_name name = fit (clean (base (forward name)))
