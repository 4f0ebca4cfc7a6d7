-- ===== src/Prelude/Lists.antt =====
-- Lists: native lengths, membership as a recursive predicate, `sort.Slice`, and the order in
-- which the Go runtime ranges over a map.
use Prim.Native.Nat.{ℕ, zero, suc, ◌+◌, ◌-◌, ◌≤◌, min}
use mathlib.Core.Path.{◌≡◌, refl, ap}
use mathlib.Core.Logic.{◌⊎◌, inl, inr, ◌↔◌}
use mathlib.Core.Bool.{Bool, true, false}
use mathlib.Core.List.{List, [], ◌∷◌, ◌++◌}
use native.Mathlib.Omega.{arith}
use ttd_elektronik.Prelude.Tests.{if◌then◌else◌, eqb}

module _ {ℓ} {A : Type ℓ} where
  abbrev pub length : List A → ℕ
  length [] = 0
  length (x ∷ xs) = suc (length xs)

  -- `s[n:]` and `s[:n]`
  abbrev pub drop : ℕ → List A → List A
  drop zero xs = xs
  drop (suc n) [] = []
  drop (suc n) (x ∷ xs) = drop n xs

  abbrev pub take : ℕ → List A → List A
  take zero xs = []
  take (suc n) [] = []
  take (suc n) (x ∷ xs) = x ∷ take n xs

  pub length-append : (xs ys : List A) → length (xs ++ ys) ≡ length xs + length ys
  length-append [] ys = omega arith
  length-append (x ∷ xs) ys = omega (arith, length-append xs ys)

  pub length-drop : (n : ℕ) (xs : List A) → length (drop n xs) ≡ length xs - n
  length-drop zero xs = omega arith
  length-drop (suc n) [] = omega arith
  length-drop (suc n) (x ∷ xs) = omega (arith, length-drop n xs)

  pub length-take : (n : ℕ) (xs : List A) → length (take n xs) ≡ min n (length xs)
  length-take zero xs = omega arith
  length-take (suc n) [] = omega arith
  length-take (suc n) (x ∷ xs) = omega (arith, length-take n xs)

  pub take_all : (n : ℕ) (xs : List A) → length xs ≤ n → take n xs ≡ xs
  take_all zero [] h = refl
  take_all zero (x ∷ xs) h = absurd (omega arith)
  take_all (suc n) [] h = refl
  take_all (suc n) (x ∷ xs) h = ap (λ l. x ∷ l) (take_all n xs (omega arith))

  pub drop-append : (n : ℕ) (xs ys : List A) → n ≤ length xs → drop n (xs ++ ys) ≡ drop n xs ++ ys
  drop-append zero xs ys h = refl
  drop-append (suc n) [] ys h = absurd (omega arith)
  drop-append (suc n) (x ∷ xs) ys h = drop-append n xs ys (omega arith)

module _ {ℓ} {A : Type ℓ} where
  -- the loop `for _, x := range xs { if p(x) { out = append(out, x) } }`
  abbrev pub keep : (A → Bool) → List A → List A
  keep p [] = []
  keep p (x ∷ xs) = let rest = keep p xs in if p x then x ∷ rest else rest

  -- One step of an insertion sort: `x` goes behind all that comes before it.
  abbrev pub insert_by : (A → A → Bool) → A → List A → List A
  insert_by before x [] = x ∷ []
  insert_by before x (y ∷ ys) =
      let later = insert_by before x ys in if before y x then y ∷ later else x ∷ y ∷ ys

  -- `sort.Slice(xs, before)`
  abbrev pub sort_by : (A → A → Bool) → List A → List A
  sort_by before [] = []
  sort_by before (x ∷ xs) = insert_by before x (sort_by before xs)

module _ {ℓ κ} {A : Type ℓ} (P : A → Type κ) where
  abbrev pub All : List A → Type κ
  All [] = Unit
  All (x ∷ xs) = P x × All xs

-- Membership of values of the program, as nested sums that the tactics take apart.
module _ {A : Type 0} where
  abbrev pub In : A → List A → Type 0
  In x [] = ⊥
  In x (y ∷ ys) = (x ≡ y) ⊎ In x ys

  pub keep-In : (p : A → Bool) (x : A) (xs : List A) → In x xs → p x ≡ true → In x (keep p xs)
  keep-In p x [] h e = h
  keep-In p x (y ∷ ys) h e = ground (arith, keep-In p x ys)

  pub In-keep : (p : A → Bool) (x : A) (xs : List A) → In x (keep p xs) → In x xs × (p x ≡ true)
  In-keep p x [] h = elim h [ ]
  In-keep p x (y ∷ ys) h = ground (arith, In-keep p x ys)

module _ {A : Type 0} (before : A → A → Bool) where
  insert_by-In : (x y : A) (ys : List A) → (x ≡ y) ⊎ In x ys → In x (insert_by before y ys)
  insert_by-In x y [] h = ground arith
  insert_by-In x y (z ∷ zs) h = ground (arith, insert_by-In x y zs)

  In-insert_by : (x y : A) (ys : List A) → In x (insert_by before y ys) → (x ≡ y) ⊎ In x ys
  In-insert_by x y [] h = ground arith
  In-insert_by x y (z ∷ zs) h = ground (arith, In-insert_by x y zs)

  pub sort_by-In : (x : A) (xs : List A) → In x xs → In x (sort_by before xs)
  sort_by-In x [] h = h
  sort_by-In x (y ∷ ys) (inl e) = insert_by-In x y (sort_by before ys) (inl e)
  sort_by-In x (y ∷ ys) (inr h) = insert_by-In x y (sort_by before ys) (inr (sort_by-In x ys h))

  pub In-sort_by : (x : A) (xs : List A) → In x (sort_by before xs) → In x xs
  In-sort_by x [] h = h
  In-sort_by x (y ∷ ys) h = elim (In-insert_by x y (sort_by before ys) h) [
    | inl e ↦ inl e
    | inr k ↦ inr (In-sort_by x ys k)
  ]

  -- No element comes before its left neighbour.
  abbrev pub IsSorted : List A → Type 0
  IsSorted [] = Unit
  IsSorted (x ∷ []) = Unit
  IsSorted (x ∷ y ∷ l) = (before y x ≡ false) × IsSorted (y ∷ l)

  module _ (asym : (a b : A) → before a b ≡ true → before b a ≡ false) where
    insert_by-IsSorted : (x : A) (ys : List A) → IsSorted ys → IsSorted (insert_by before x ys)
    insert_by-IsSorted x [] s = tt
    insert_by-IsSorted x (y ∷ []) s = ground (arith, asym y x)
    insert_by-IsSorted x (y ∷ z ∷ zs) s =
        ground (arith, asym y x, asym z x, insert_by-IsSorted x (z ∷ zs))

    pub sort_by-IsSorted : (xs : List A) → IsSorted (sort_by before xs)
    sort_by-IsSorted [] = tt
    sort_by-IsSorted (x ∷ xs) = insert_by-IsSorted x (sort_by before xs) (sort_by-IsSorted xs)

-- Go ranges over a map in no fixed order: `range` stands for the order that the runtime takes,
-- and all that is known of it is that it visits what the map holds, and only that.
pub record Ranging : Type 1 where
  pub range : (A : Type 0) → List A → List A
  pub range_visits : (A : Type 0) (x : A) (xs : List A) → In x xs → In x (range A xs)
  pub range_only : (A : Type 0) (x : A) (xs : List A) → In x (range A xs) → In x xs

-- The order of insertion, for the examples.
abbrev pub in_order : Ranging
in_order = record { range = λ A xs. xs; range_visits = λ A x xs h. h; range_only = λ A x xs h. h }

-- `bytes.Equal`
abbrev pub same_bytes : List ℕ → List ℕ → Bool
same_bytes [] [] = true
same_bytes (x ∷ xs) (y ∷ ys) = let rest = same_bytes xs ys in if eqb x y then rest else false
same_bytes _ _ = false

pub same_bytes_iff : (xs ys : List ℕ) → (same_bytes xs ys ≡ true) ↔ (xs ≡ ys)
same_bytes_iff [] [] = ground arith
same_bytes_iff [] (y ∷ ys) = ground arith
same_bytes_iff (x ∷ xs) [] = ground arith
same_bytes_iff (x ∷ xs) (y ∷ ys) = ground (arith, same_bytes_iff xs ys)
