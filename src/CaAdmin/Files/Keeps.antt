-- ===== src/CaAdmin/Files/Keeps.antt =====
-- Actions that leave one file alone, however they end.
use ttd_elektronik.Prelude.{
  String, true, false, Option, none, some, ok, err, get, get-put, ◌==◌, ◌≡◌, refl, arith, Bool,
  Bool-cases, Option-cases, Result-cases, inl, inr, ◌∙◌, if◌then◌else◌,
}
use ttd_elektronik.Store.Types.{Bytes}
use ttd_elektronik.CaAdmin.Files.{
  Files, Env, Failure, Action, or_fail, stop_if, attempt, ◌>>=◌, ◌>>◌, write_file, append_line,
  write_output, Spares,
}

abbrev pub Keeps : {A : Type 0} → String → Action A → Type 0
Keeps path m = (f : Files) → get (m f).0.files path ≡ get f.files path

-- How a sequence of two actions ends.
module _ {A B : Type 0} (m : Action A) (g : A → Action B) (f : Files) where
  pub >>=-err : {why : Failure} → (m f).1 ≡ err why → (m >>= g) f ≡ ((m f).0, err why)
  >>=-err failed = rw (failed, ◌>>=◌) refl

  pub >>=-ok : {a : A} → (m f).1 ≡ ok a → (m >>= g) f ≡ g a (m f).0
  >>=-ok went = rw (went, ◌>>=◌) refl

module _ (path : String) where
  pub Keeps->>= :
      {A B : Type 0} (m : Action A) (g : A → Action B)
      → Keeps path m
      → ((a : A) → Keeps path (g a))
      → Keeps path (m >>= g)
  Keeps->>= m g km kg f = elim (Result-cases (m f).1) [
    | inr (why, failed) ↦ rw (failed, ◌>>=◌) (km f)
    | inl (a, went) ↦ rw (went, ◌>>=◌) (kg a (m f).0 ∙ km f)
  ]

  pub Keeps->> :
      {A B : Type 0} (m : Action A) (n : Action B)
      → Keeps path m
      → Keeps path n
      → Keeps path (m >> n)
  Keeps->> m n km kn = Keeps->>= m (λ _. n) km (λ a. kn)

  pub Keeps-if :
      {A : Type 0} (b : Bool) (m n : Action A)
      → Keeps path m
      → Keeps path n
      → Keeps path (if b then m else n)
  Keeps-if true m n km kn = km
  Keeps-if false m n km kn = kn

  pub Keeps-or_fail : {A : Type 0} (o : Option A) (e : Failure) → Keeps path (or_fail o e)
  Keeps-or_fail none e f = refl
  Keeps-or_fail (some a) e f = refl

  module _ (env : Env) where
    pub write_file-Keeps :
        (p : String) (b : Bytes) → (p == path) ≡ false → Keeps path (write_file env p b)
    unfolding write_file
    write_file-Keeps p b other f = elim (Bool-cases (env.can_write p)) [
      | inr shut ↦ rw shut refl
      | inl writes ↦ elim (Option-cases (env.breaks p)) [
        | inl through ↦ rw (writes, through, get-put, other) refl
        | inr (n, broken) ↦ rw (writes, broken, get-put, other) refl
      ]
    ]

    pub append_line-Keeps :
        (p : String) (b : Bytes) → (p == path) ≡ false → Keeps path (append_line env p b)
    unfolding append_line
    append_line-Keeps p b other f = elim (Bool-cases (env.can_write p)) [
      | inr shut ↦ rw shut refl
      | inl writes ↦ elim (Option-cases (env.breaks p)) [
        | inl through ↦ rw (writes, through, get-put, other) refl
        | inr (n, broken) ↦ rw (writes, broken, get-put, other) refl
      ]
    ]

    pub write_output-Keeps :
        (p : String) (b : Bytes) → Spares env p path → Keeps path (write_output env p b)
    unfolding write_output
    write_output-Keeps p b spares f = elim (Option-cases (env.inside p)) [
      | inl outside ↦
          ground (arith, outside, Bool-cases (env.can_write p), Option-cases (env.breaks p))
      | inr (q, named) ↦ rw (named, write_output) (write_file-Keeps q b (spares q named) f)
    ]

  pub Keeps-attempt : {A : Type 0} (m : Action A) → Keeps path m → Keeps path (attempt m)
  Keeps-attempt m km f = km f

  pub Keeps-stop_if : (b : Bool) (e : Failure) → Keeps path (stop_if b e)
  Keeps-stop_if b e f = refl
