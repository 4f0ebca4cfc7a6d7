-- ===== src/Tests/Encoding.antt =====
-- A sample encoding of records as bytes, which decodes what it encodes, for the parameters that stand
-- for encoding/json, DER and PEM.
use Prim.Native.Char.{Char, char, IsScalar, IsLt}
use Prim.Native.String.{String}
use Prim.Native.Nat.{Ordering, compare}
use ttd_elektronik.Prelude.{
  ℕ, zero, suc, Bool, true, false, Option, none, some, List, [], ◌∷◌, length, ◌≡◌, refl, eqb,
  if◌then◌else◌, ap,
}
use ttd_elektronik.Store.Types.{Bytes}

-- `read` takes what `write` has put in front of other bytes.
pub record Encoding (A : Type 0) : Type 0 where
  pub write : A → Bytes → Bytes
  pub read : Bytes → Option (A × Bytes)
  pub reads : (a : A) (rest : Bytes) → read (write a rest) ≡ some (a, rest)

abbrev read_number : Bytes → Option (ℕ × Bytes)
read_number [] = none
read_number (n ∷ rest) = some (n, rest)

abbrev pub number : Encoding ℕ
number = record { write = λ n rest. n ∷ rest; read = read_number; reads = λ n rest. refl }

module _ {A B : Type 0} (e : Encoding A) where
  -- Another form of the same values.
  abbrev pub via : (to : A → B) (from : B → A) → ((b : B) → to (from b) ≡ b) → Encoding B
  via to from same = record {
    write = λ b. e.write (from b);
    read = λ raw. elim (e.read raw) [ none ↦ none | some (a, rest) ↦ some (to a, rest) ];
    reads = λ b rest. rw (e.reads (from b) rest, same b) refl;
  }

module _ {A B : Type 0} (e : Encoding A) (f : Encoding B) where
  abbrev read_both : Bytes → Option ((A × B) × Bytes)
  read_both raw = elim (e.read raw) [
    | none ↦ none
    | some (a, rest) ↦ elim (f.read rest) [ none ↦ none | some (b, rest') ↦ some ((a, b), rest') ]
  ]

  abbrev pub both : Encoding (A × B)
  both = record {
    write = λ (a, b) rest. e.write a (f.write b rest);
    read = read_both;
    reads = λ (a, b) rest. rw (read_both, e.reads a (f.write b rest), f.reads b rest) refl;
  }

module _ {A : Type 0} (e : Encoding A) where
  abbrev write_all : List A → Bytes → Bytes
  write_all [] rest = rest
  write_all (a ∷ xs) rest = e.write a (write_all xs rest)

  abbrev read_all : ℕ → Bytes → Option (List A × Bytes)
  read_all zero raw = some ([], raw)
  read_all (suc n) raw = elim (e.read raw) [
    | none ↦ none
    | some (a, rest) ↦ elim (read_all n rest) [
      | none ↦ none
      | some (xs, rest') ↦ some (a ∷ xs, rest')
    ]
  ]

  abbrev read_all-write_all :
      (xs : List A) (rest : Bytes) → read_all (length xs) (write_all xs rest) ≡ some (xs, rest)
  read_all-write_all [] rest = refl
  read_all-write_all (a ∷ xs) rest =
      rw (e.reads a (write_all xs rest), read_all-write_all xs rest) refl

  abbrev read_counted : Bytes → Option (List A × Bytes)
  read_counted [] = none
  read_counted (n ∷ raw) = read_all n raw

  -- A list, behind its length.
  abbrev pub list : Encoding (List A)
  list = record {
    write = λ xs rest. length xs ∷ write_all xs rest;
    read = read_counted;
    reads = λ xs rest. read_all-write_all xs rest;
  }

abbrev bit_same : (b : Bool) → eqb (if b then 1 else 0) 1 ≡ b
bit_same true = refl
bit_same false = refl

abbrev pub bit : Encoding Bool
bit = via number (λ n. eqb n 1) (λ b. if b then 1 else 0) bit_same

-- Whether three comparisons are those of a Unicode scalar value, as `IsScalar` has it.
abbrev Both : Ordering → Ordering → Type 0
Both Ordering.lt o = IsLt o
Both Ordering.eq o = ⊥
Both Ordering.gt o = ⊥

abbrev Scalar : Ordering → Ordering → Ordering → Type 0
Scalar Ordering.lt o p = Unit
Scalar Ordering.eq o p = Both o p
Scalar Ordering.gt o p = Both o p

abbrev found_both : (o p : Ordering) → Option (Both o p)
found_both Ordering.lt Ordering.lt = some tt
found_both Ordering.lt Ordering.eq = none
found_both Ordering.lt Ordering.gt = none
found_both Ordering.eq p = none
found_both Ordering.gt p = none

abbrev found : (o p q : Ordering) → Option (Scalar o p q)
found Ordering.lt p q = some tt
found Ordering.eq p q = found_both p q
found Ordering.gt p q = found_both p q

abbrev found_both_complete : (o p : Ordering) (h : Both o p) → found_both o p ≡ some h
found_both_complete Ordering.lt Ordering.lt h = refl
found_both_complete Ordering.lt Ordering.eq h = elim h [ ]
found_both_complete Ordering.lt Ordering.gt h = elim h [ ]
found_both_complete Ordering.eq p h = elim h [ ]
found_both_complete Ordering.gt p h = elim h [ ]

abbrev found_complete : (o p q : Ordering) (h : Scalar o p q) → found o p q ≡ some h
found_complete Ordering.lt p q h = refl
found_complete Ordering.eq p q h = found_both_complete p q h
found_complete Ordering.gt p q h = found_both_complete p q h

abbrev scalar : (n : ℕ) → Option (IsScalar n)
scalar n = found (compare n 55296) (compare 57343 n) (compare n 1114112)

abbrev scalar_complete : (n : ℕ) (h : IsScalar n) → scalar n ≡ some h
scalar_complete n h = found_complete (compare n 55296) (compare 57343 n) (compare n 1114112) h

abbrev write_char : Char → Bytes → Bytes
write_char (char n h) rest = n ∷ rest

abbrev read_char : Bytes → Option (Char × Bytes)
read_char [] = none
read_char (n ∷ rest) = elim (scalar n) [ none ↦ none | some h ↦ some (char n h, rest) ]

abbrev read_char-write_char :
    (c : Char) (rest : Bytes) → read_char (write_char c rest) ≡ some (c, rest)
read_char-write_char (char n h) rest = rw (read_char, scalar_complete n h) refl

abbrev character : Encoding Char
character = record { write = write_char; read = read_char; reads = read_char-write_char }

abbrev chars : String → List Char
chars String.[] = []
chars (String.◌∷◌ c s) = c ∷ chars s

abbrev of_chars : List Char → String
of_chars [] = String.[]
of_chars (c ∷ cs) = String.◌∷◌ c (of_chars cs)

abbrev of_chars-chars : (s : String) → of_chars (chars s) ≡ s
of_chars-chars String.[] = refl
of_chars-chars (String.◌∷◌ c s) = ap (String.◌∷◌ c) (of_chars-chars s)

abbrev pub text : Encoding String
text = via (list character) of_chars chars of_chars-chars

module _ {A : Type 0} (e : Encoding A) where
  abbrev pub to_bytes : A → Bytes
  to_bytes a = e.write a []

  abbrev pub of_bytes : Bytes → Option A
  of_bytes raw = elim (e.read raw) [ none ↦ none | some (a, rest) ↦ some a ]

  pub of_bytes-to_bytes : (a : A) → of_bytes (to_bytes a) ≡ some a
  of_bytes-to_bytes a = rw (of_bytes, e.reads a []) refl
