-- ===== src/Api/Limits/Sweep.antt =====
-- Sweeping idle keys away is not seen by any client, and no client spends another's tokens.
use ttd_elektronik.Prelude.{
  ℕ, ◌+◌, ◌≤◌, String, none, [], ◌∷◌, Dict, get, put, get-put, ltb, ◌≡◌, ◌≢◌, refl, sym, ap, arith,
  eq_iff, ◌==◌, Bool-cases, inl, inr,
}
use ttd_elektronik.Api.Limits.{Bucket, Entry, quarter, bucket_of, allow, sweep}

module _ (k : Bucket) where
  -- Each key once, with a bucket that was asked no later than its entry says.
  abbrev pub IsSynced : Dict (Entry k) → Type 0
  IsSynced [] = Unit
  IsSynced ((key, e) ∷ seen) = (get seen key ≡ none) × (k.used e.lim ≤ e.last) × IsSynced seen

  get-sweep-none :
      (now : ℕ) (key : String) (seen : Dict (Entry k))
      → get seen key ≡ none
      → get (sweep k now seen) key ≡ none
  unfolding get sweep
  get-sweep-none now key [] h = refl
  get-sweep-none now key ((j, e) ∷ seen) h = ground (arith, get-sweep-none now key seen)

  pub sweep-IsSynced :
      (now : ℕ) (seen : Dict (Entry k)) → IsSynced seen → IsSynced (sweep k now seen)
  unfolding sweep
  sweep-IsSynced now [] h = tt
  sweep-IsSynced now ((j, e) ∷ seen) h =
      ground (arith, sweep-IsSynced now seen, get-sweep-none now j seen)

  put-IsSynced :
      (key : String) (e : Entry k) (seen : Dict (Entry k))
      → k.used e.lim ≤ e.last
      → IsSynced seen
      → IsSynced (put seen key e)
  unfolding put get
  put-IsSynced key e [] ok h = (refl, ok, tt)
  put-IsSynced key e ((j, f) ∷ seen) ok h =
      ground (arith, eq_iff j key, eq_iff key j, get-put seen key j e, put-IsSynced key e seen)

  pub allow-IsSynced :
      (now : ℕ) (key : String) (seen : Dict (Entry k))
      → IsSynced seen
      → IsSynced (allow k now key seen).0
  unfolding allow
  allow-IsSynced now key seen h = put-IsSynced key _ seen (k.used_spend now _) h

  -- A key that was swept had a bucket that is full again.
  sweep-spend :
      (now later : ℕ) (key : String) (seen : Dict (Entry k))
      → now ≤ later
      → IsSynced seen
      → k.spend later (bucket_of k (get (sweep k now seen) key))
        ≡ k.spend later (bucket_of k (get seen key))
  unfolding get sweep
  sweep-spend now later key [] order h = refl
  sweep-spend now later key ((j, e) ∷ seen) order h = elim (Bool-cases (j == key)) [
    | inr other ↦ elim (Bool-cases (ltb (e.last + quarter) now)) [
      | inl idle ↦ rw (idle, other) (sweep-spend now later key seen order h.2)
      | inr busy ↦ rw (busy, other) (sweep-spend now later key seen order h.2)
    ]
    | inl same ↦ elim (Bool-cases (ltb (e.last + quarter) now)) [
      | inl idle ↦
          let gone : get seen key ≡ none = rw (sym ((eq_iff j key).0 same)) h.0 in
          rw (idle, same, get-sweep-none now key seen gone)
            (sym (k.refills later e.lim (ground arith)))
      | inr busy ↦ rw (busy, same) refl
    ]
  ]

  -- Where each key has one entry whose bucket was asked no later than the entry says, whoever asks
  -- after a sweep gets the answer that it would have got without it.
  pub sweep-unseen :
      (now later : ℕ) (key : String) (seen : Dict (Entry k))
      → now ≤ later
      → IsSynced seen
      → (allow k later key (sweep k now seen)).1 ≡ (allow k later key seen).1
  unfolding allow
  sweep-unseen now later key seen order h = ap (λ r. r.1) (sweep-spend now later key seen order h)

  -- A request of one key changes no later answer for another.
  pub allow-apart :
      (now later : ℕ) (key other : String) (seen : Dict (Entry k))
      → key ≢ other
      → (allow k later other (allow k now key seen).0).1 ≡ (allow k later other seen).1
  unfolding allow
  allow-apart now later key other seen apart = ground (
    arith,
    eq_iff key other,
    get-put seen key other
        (record { lim = (k.spend now (bucket_of k (get seen key))).0; last = now }),
  )
