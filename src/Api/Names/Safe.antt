-- ===== src/Api/Names/Safe.antt =====
-- What a sanitized name can be.
use Prim.Native.Nat.{ℕ, zero, suc, ◌≤◌, ◌<◌}
use Prim.Native.String.{String, [], ◌∷◌}
use ttd_elektronik.Prelude.{
  Bool, true, false, ◌||◌, ◌==◌, if◌then◌else◌, ltb, byte_length, ◌≡◌, ◌≢◌, refl, ap, arith, eq_iff,
  Bool-cases, inl, inr,
}
use ttd_elektronik.Api.Names.{forward, base, is_safe, clean, cut, fit, sanitize_name}

-- Only letters, digits, dots, dashes, underscores and spaces.
unfoldable pub all_safe : String → Bool
all_safe [] = true
all_safe (c ∷ s) = if is_safe c then all_safe s else false

clean-all_safe : (s : String) → all_safe (clean s) ≡ true
unfolding all_safe clean
clean-all_safe [] = refl
clean-all_safe (c ∷ s) = ground (arith, clean-all_safe s)

cut-all_safe : (n : ℕ) (s : String) → all_safe s ≡ true → all_safe (cut n s) ≡ true
unfolding all_safe cut
cut-all_safe zero s h = refl
cut-all_safe (suc n) [] h = refl
cut-all_safe (suc n) (c ∷ s) h = ground (arith, cut-all_safe n s)

byte_length-cut :
    (n : ℕ) (s : String) → all_safe s ≡ true → n ≤ byte_length s → byte_length (cut n s) ≡ n
unfolding all_safe cut byte_length
byte_length-cut zero s h e = refl
byte_length-cut (suc n) [] h e = absurd (omega arith)
byte_length-cut (suc n) (c ∷ s) h e = ground (arith, byte_length-cut n s)

-- A file name that no directory and no shell reads as more than a name.
pub record IsSafeName (name : String) : Type 0 where
  pub safe : all_safe name ≡ true
  pub short : byte_length name ≤ 128
  pub nonempty : name ≢ ""
  pub not_here : name ≢ "."
  pub not_parent : name ≢ ".."

fallback-IsSafeName : IsSafeName "document.pdf"
unfolding byte_length all_safe
fallback-IsSafeName = record {
  safe = refl;
  short = omega arith;
  nonempty = λ e. cc ((eq_iff "document.pdf" "").1 e);
  not_here = λ e. cc ((eq_iff "document.pdf" ".").1 e);
  not_parent = λ e. cc ((eq_iff "document.pdf" "..").1 e);
}

-- A name of more than two bytes is none of the three.
long-IsSafeName :
    (s : String) → all_safe s ≡ true → byte_length s ≤ 128 → 2 < byte_length s → IsSafeName s
unfolding byte_length
long-IsSafeName s safe short long = record {
  safe = safe;
  short = short;
  nonempty = λ e. omega (arith, ap byte_length e);
  not_here = λ e. omega (arith, ap byte_length e);
  not_parent = λ e. omega (arith, ap byte_length e);
}

fit-IsSafeName : (s : String) → all_safe s ≡ true → IsSafeName (fit s)
fit-IsSafeName s safe = elim (Bool-cases (s == "" || s == "." || s == "..")) [
  | inl special ↦ rw special fallback-IsSafeName
  | inr plain ↦ elim (Bool-cases (ltb 128 (byte_length s))) [
    | inl long ↦
        let size : byte_length (cut 128 s) ≡ 128 = byte_length-cut 128 s safe (ground arith) in
        rw (plain, long)
          (long-IsSafeName (cut 128 s) (cut-all_safe 128 s safe) (omega (arith, size))
            (omega (arith, size)))
    | inr short ↦
        rw (plain, short)
          (record {
            safe = safe;
            short = ground arith;
            nonempty = λ e. ground (arith, eq_iff s "");
            not_here = λ e. ground (arith, eq_iff s ".");
            not_parent = λ e. ground (arith, eq_iff s "..");
          })
  ]
]

-- Whatever a client calls its file, the name that is kept has only safe characters, is neither
-- empty nor a directory's, and has at most 128 bytes.
pub sanitize_name-IsSafeName : (name : String) → IsSafeName (sanitize_name name)
unfolding sanitize_name
sanitize_name-IsSafeName name =
    fit-IsSafeName (clean (base (forward name))) (clean-all_safe (base (forward name)))
