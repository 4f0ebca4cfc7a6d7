-- ===== src/Prelude/Dicts.antt =====
-- A Go map with string keys, as an association list.
use Prim.Native.String.{String}
use mathlib.Core.Path.{◌≡◌, refl, ap}
use mathlib.Core.Logic.{inl, inr}
use mathlib.Core.Option.{Option, none, some}
use mathlib.Core.List.{List, [], ◌∷◌}
use native.Mathlib.Omega.{arith}
use text.Mathlib.Text.{◌==◌}
use text.Mathlib.TextEquality.{eq_iff}
use ttd_elektronik.Prelude.Tests.{if◌then◌else◌}
use ttd_elektronik.Prelude.Lists.{In}

abbrev pub Dict {ℓ} : Type ℓ → Type ℓ
Dict V = List (String × V)

unfoldable pub empty {ℓ} : {V : Type ℓ} → Dict V
empty = []

module _ {ℓ} {V : Type ℓ} where
  -- `v, ok := m[k]`
  unfoldable pub get : Dict V → String → Option V
  get [] k = none
  get ((j, v) ∷ d) k = if j == k then some v else get d k

  -- `m[k] = v`
  unfoldable pub put : Dict V → String → V → Dict V
  put [] k v = (k, v) ∷ []
  put ((j, w) ∷ d) k v = if j == k then (k, v) ∷ d else (j, w) ∷ put d k v

  -- `delete(m, k)`
  unfoldable pub remove : Dict V → String → Dict V
  remove [] k = []
  remove ((j, w) ∷ d) k = let rest = remove d k in if j == k then rest else (j, w) ∷ rest

  unfoldable pub values : Dict V → List V
  values [] = []
  values ((j, v) ∷ d) = v ∷ values d

  pub get-put :
      (d : Dict V) (k j : String) (v : V) → get (put d k v) j ≡ (if k == j then some v else get d j)
  unfolding get put
  get-put [] k j v = refl
  get-put ((i, w) ∷ d) k j v = ground (arith, eq_iff k j, eq_iff i k, eq_iff i j, get-put d k j v)

  pub get-remove :
      (d : Dict V) (k j : String) → get (remove d k) j ≡ (if k == j then none else get d j)
  unfolding get remove
  get-remove [] k j = ground arith
  get-remove ((i, w) ∷ d) k j = ground (arith, eq_iff k j, eq_iff i k, eq_iff i j, get-remove d k j)

pub get-empty {ℓ} : {V : Type ℓ} (k : String) → get (empty {V = V}) k ≡ none
unfolding get empty
get-empty k = refl

pub ruleset dict_laws = (get-empty, get-put, get-remove)

-- Each key is held once, and is the name that its value has.
module _ {V : Type 0} (name : V → String) where
  abbrev pub IsKeyed : Dict V → Type 0
  IsKeyed [] = Unit
  IsKeyed ((k, v) ∷ d) = (name v ≡ k) × (get d k ≡ none) × IsKeyed d

  pub put-IsKeyed : (d : Dict V) (k : String) (v : V) → name v ≡ k → IsKeyed d → IsKeyed (put d k v)
  unfolding put get
  put-IsKeyed [] k v e h = (e, refl, tt)
  put-IsKeyed ((j, w) ∷ d) k v e h =
      ground (arith, eq_iff j k, eq_iff k j, get-put d k j v, put-IsKeyed d k v)

  pub remove-IsKeyed : (d : Dict V) (k : String) → IsKeyed d → IsKeyed (remove d k)
  unfolding remove
  remove-IsKeyed [] k h = tt
  remove-IsKeyed ((j, w) ∷ d) k h =
      ground (arith, eq_iff k j, eq_iff j k, get-remove d k j, remove-IsKeyed d k)

  -- What a lookup finds has the key as its name.
  pub get-key : (d : Dict V) (k : String) (v : V) → IsKeyed d → get d k ≡ some v → name v ≡ k
  unfolding get
  get-key [] k v h e = cc
  get-key ((j, w) ∷ d) k v h e = ground (arith, eq_iff j k, get-key d k v)

  pub get-In : (d : Dict V) (k : String) (v : V) → get d k ≡ some v → In v (values d)
  unfolding get values
  get-In [] k v e = cc
  get-In ((j, w) ∷ d) k v e = ground (arith, eq_iff j k, get-In d k v)

  -- Each value that the map holds is found under its name.
  pub In-get : (d : Dict V) (v : V) → IsKeyed d → In v (values d) → get d (name v) ≡ some v
  unfolding get values
  In-get [] v h i = elim i [ ]
  In-get ((j, w) ∷ d) v h (inl e) = ground (arith, eq_iff j (name v), ap name e)
  In-get ((j, w) ∷ d) v h (inr i) = ground (arith, eq_iff j (name v), In-get d v h.2 i)

pub ruleset keyed_laws = (get-key, get-In, In-get, put-IsKeyed, remove-IsKeyed)
