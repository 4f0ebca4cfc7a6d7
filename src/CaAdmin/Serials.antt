-- ===== src/CaAdmin/Serials.antt =====
-- castore.go and main.go: certificate serials in hexadecimal, as `fmt.Sprintf("%x", serial)` prints
-- them and `new(big.Int).SetString(s, 16)` reads them. The functions of the library are written out.
use Prim.Native.Char.{Char, code}
use Prim.Native.String.{String, [], ◌∷◌}
use ttd_elektronik.Prelude.{
  ℕ, zero, suc, ◌+◌, ◌-◌, ◌*◌, ◌/◌, ◌%◌, ◌<◌, ◌≤◌, Bool, true, false, not, ◌&&◌, Option, none, some,
  ltb, leb, eqb, if◌then◌else◌, ◌≡◌, refl, arith, Bool-cases, inl, inr,
}
use ttd_elektronik.Core.Labpki.{Serial, plain}

-- The value of a digit of base 16, in either case.
abbrev digit_value : Char → Option ℕ
digit_value c =
    let n = code c in
    if leb 48 n && leb n 57
    then some (n - 48)
    else if leb 97 n && leb n 102
    then some (n - 87)
    else if leb 65 n && leb n 70
    then some (n - 55)
    else none

unfoldable pub digits_value : ℕ → String → Option ℕ
digits_value acc [] = some acc
digits_value acc (c ∷ s) = elim (digit_value c) [
  | none ↦ none
  | some d ↦ digits_value (acc * 16 + d) s
]

-- There is no negative zero.
abbrev signed : Bool → Option ℕ → Option Serial
signed negative none = none
signed negative (some n) = some (record { negative = negative && not (eqb n 0); magnitude = n })

abbrev magnitude : String → Option ℕ
magnitude [] = none
magnitude (c ∷ s) = digits_value 0 (c ∷ s)

-- `new(big.Int).SetString(s, 16)`
unfoldable pub set_string : String → Option Serial
unfolding digits_value
set_string [] = none
set_string (c ∷ s) =
    if eqb (code c) 45
    then signed true (magnitude s)
    else if eqb (code c) 43
    then signed false (magnitude s)
    else signed false (magnitude (c ∷ s))

-- The character at a place, the last one beyond the end.
abbrev nth : String → Char → ℕ → Char
nth [] last n = last
nth (c ∷ s) last zero = c
nth (c ∷ s) last (suc n) = nth s last n

abbrev hex_char : ℕ → Char
hex_char n = nth "0123456789abcde" "f" n

-- The digits of `n` in front of `s`; a number has fewer digits than it counts.
unfoldable pub hex_onto : ℕ → ℕ → String → String
hex_onto zero n s = s
hex_onto (suc fuel) n s = elim (ltb n 16) [
  | true ↦ hex_char n ∷ s
  | false ↦ hex_onto fuel (n / 16) (hex_char (n % 16) ∷ s)
]

-- `fmt.Sprintf("%x", n)`
unfoldable pub hex : ℕ → String
unfolding hex_onto
hex n = hex_onto (n + 1) n []

-- `certSerialHex`
abbrev pub cert_serial_hex : ℕ → String
cert_serial_hex n = hex n

digit_value-hex_char : (n : ℕ) → n < 16 → digit_value (hex_char n) ≡ some n
digit_value-hex_char zero h = refl
digit_value-hex_char (suc zero) h = refl
digit_value-hex_char (suc (suc zero)) h = refl
digit_value-hex_char (suc (suc (suc zero))) h = refl
digit_value-hex_char (suc (suc (suc (suc zero)))) h = refl
digit_value-hex_char (suc (suc (suc (suc (suc zero))))) h = refl
digit_value-hex_char (suc (suc (suc (suc (suc (suc zero)))))) h = refl
digit_value-hex_char (suc (suc (suc (suc (suc (suc (suc zero))))))) h = refl
digit_value-hex_char (suc (suc (suc (suc (suc (suc (suc (suc zero)))))))) h = refl
digit_value-hex_char (suc (suc (suc (suc (suc (suc (suc (suc (suc zero))))))))) h = refl
digit_value-hex_char (suc (suc (suc (suc (suc (suc (suc (suc (suc (suc zero)))))))))) h = refl
digit_value-hex_char (suc (suc (suc (suc (suc (suc (suc (suc (suc (suc (suc zero))))))))))) h = refl
digit_value-hex_char (suc (suc (suc (suc (suc (suc (suc (suc (suc (suc (suc (suc zero))))))))))))
      h =
    refl
digit_value-hex_char
      (suc (suc (suc (suc (suc (suc (suc (suc (suc (suc (suc (suc (suc zero))))))))))))) h =
    refl
digit_value-hex_char
      (suc (suc (suc (suc (suc (suc (suc (suc (suc (suc (suc (suc (suc (suc zero)))))))))))))) h =
    refl
digit_value-hex_char
      (suc (suc (suc (suc (suc (suc (suc (suc (suc (suc (suc (suc (suc (suc (suc zero)))))))))))))))
      h =
    refl
digit_value-hex_char
      (suc
        (suc (suc (suc (suc (suc (suc (suc (suc (suc (suc (suc (suc (suc (suc (suc n))))))))))))))))
      h =
    absurd (omega arith)

digits_value-digit :
    (acc n : ℕ) (s : String)
    → n < 16
    → digits_value acc (hex_char n ∷ s) ≡ digits_value (acc * 16 + n) s
unfolding digits_value
digits_value-digit acc n s h = rw (digits_value, digit_value-hex_char n h) refl

digits_value-hex_onto :
    (fuel n : ℕ) (s : String) → n < fuel → digits_value 0 (hex_onto fuel n s) ≡ digits_value n s
unfolding hex_onto
digits_value-hex_onto zero n s h = absurd (omega arith)
digits_value-hex_onto (suc fuel) n s h =
    let rest = λ (large : 16 ≤ n).
      digits_value-hex_onto fuel (n / 16) (hex_char (n % 16) ∷ s) (omega (arith, large)) in
    let whole : n / 16 * 16 + n % 16 ≡ n = omega arith in
    ground (
      arith,
      rest,
      digits_value-digit 0 n s,
      digits_value-digit (n / 16) (n % 16) s (omega arith),
      whole,
    )

StartsWithDigit : String → Type 0
StartsWithDigit s =
    (c : Char) × (rest : String) × (d : ℕ) × (s ≡ c ∷ rest) × (digit_value c ≡ some d)

hex_onto-StartsWithDigit :
    (fuel n : ℕ) (s : String) → n < fuel → StartsWithDigit (hex_onto fuel n s)
unfolding hex_onto StartsWithDigit
hex_onto-StartsWithDigit zero n s h = absurd (omega arith)
hex_onto-StartsWithDigit (suc fuel) n s h = elim (Bool-cases (ltb n 16)) [
  | inl small ↦
      (hex_char n, s, n, ground (arith, small), digit_value-hex_char n (ground (arith, small)))
  | inr large ↦
      let (c, rest, d, starts, digit) =
        hex_onto-StartsWithDigit fuel (n / 16) (hex_char (n % 16) ∷ s) (ground (arith, large)) in
      (c, rest, d, ground (arith, large, starts), digit)
]

set_string-digit : (s : String) → StartsWithDigit s → set_string s ≡ signed false (digits_value 0 s)
unfolding set_string StartsWithDigit
set_string-digit s (c, rest, d, starts, digit) =
    let plain_digit : (eqb (code c) 45 ≡ false) × (eqb (code c) 43 ≡ false) =
      (ground (arith, digit), ground (arith, digit)) in
    rw (starts, set_string, plain_digit.0, plain_digit.1) refl

-- A serial as the tool prints it is read as that serial.
pub set_string-hex : (n : ℕ) → set_string (hex n) ≡ some (plain n)
unfolding hex digits_value
set_string-hex n =
    let read =
      set_string-digit (hex_onto (n + 1) n [])
        (hex_onto-StartsWithDigit (n + 1) n [] (omega arith)) in
    rw (read, digits_value-hex_onto (n + 1) n [] (omega arith)) refl
