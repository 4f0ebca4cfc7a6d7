-- ===== src/Api/Limits.antt =====
-- ratelimit.go: a token bucket per key. The bucket of golang.org/x/time/rate is the parameter Bucket.
pub mod Sweep
use ttd_elektronik.Prelude.{
  ℕ, ◌+◌, ◌*◌, ◌/◌, ◌≤◌, ◌<◌, max, String, Bool, true, false, not, Option, none, some, List, [],
  ◌∷◌, Dict, get, put, ltb, leb, ◌≡◌, if◌then◌else◌,
}
use ttd_elektronik.Api.Types.{Response, write_err}

-- `fresh` is `rate.NewLimiter`, `spend` is `Allow` at an instant, and `used` when a bucket was last
-- asked. A bucket that nobody has asked for a quarter of an hour has filled up again.
pub record Bucket : Type 1 where
  pub State : Type 0
  pub fresh : State
  pub spend : ℕ → State → State × Bool
  pub used : State → ℕ
  pub used_spend : (now : ℕ) (b : State) → used (spend now b).0 ≤ now
  pub refills :
      (now : ℕ) (b : State) → used b + 15 * 60 * 1000000000 < now → spend now b ≡ spend now fresh

pub record Entry (k : Bucket) : Type 0 where
  pub lim : k.State
  pub last : ℕ

abbrev pub quarter : ℕ
quarter = 15 * 60 * 1000000000

-- `newLimiterSet`: the burst for so many requests a minute.
unfoldable pub burst : ℕ → ℕ
burst per_minute = max (per_minute / 6) 3

module _ (k : Bucket) where
  abbrev pub bucket_of : Option (Entry k) → k.State
  bucket_of none = k.fresh
  bucket_of (some e) = e.lim

  -- `allow`; the bucket is asked behind the lock, in the same step here.
  unfoldable pub allow : ℕ → String → Dict (Entry k) → Dict (Entry k) × Bool
  allow now key seen =
      let (lim, fine) = k.spend now (bucket_of (get seen key)) in
      (put seen key (record { lim = lim; last = now }), fine)

  -- One round of `sweep`. What is deleted does not depend on the order of the range.
  unfoldable pub sweep : ℕ → Dict (Entry k) → Dict (Entry k)
  sweep now [] = []
  sweep now ((key, e) ∷ seen) =
      let rest = sweep now seen in if ltb (e.last + quarter) now then rest else (key, e) ∷ rest

  -- `limit` around a handler; `none` is a route without a limit.
  unfoldable pub limit :
      {S : Type 0}
      → ℕ
      → String
      → (S → S × Response)
      → Option (Dict (Entry k))
      → S
      → Option (Dict (Entry k)) × (S × Response)
  limit now key handler none s = (none, handler s)
  limit now key handler (some seen) s =
      let (seen', fine) = allow now key seen in
      if not fine
      then (some seen', (s, write_err 429 "rate limit exceeded, slow down"))
      else (some seen', handler s)
