-- ===== src/Tests/Limits.antt =====
-- Examples for the results on rate limits.
use ttd_elektronik.Prelude.{ℕ, ◌+◌, ◌<◌, Bool, [], ◌∷◌, leb, get, ◌≡◌, refl, arith, Dict}
use ttd_elektronik.Api.Limits.{Bucket, Entry, allow, sweep}
use ttd_elektronik.Api.Limits.Sweep.{IsSynced, sweep-unseen}

-- A bucket of one token a minute: its state is when it was last asked.
abbrev ask : ℕ → ℕ → ℕ × Bool
ask now b = (now, leb (b + 60000000000) now)

ask-refills : (now b : ℕ) → b + 900000000000 < now → ask now b ≡ ask now 0
ask-refills now b idle = ground arith

abbrev slow : Bucket
slow = record {
  State = ℕ;
  fresh = 0;
  spend = ask;
  used = λ b. b;
  used_spend = λ now b. omega arith;
  refills = ask-refills;
}

abbrev seen : Dict (Entry slow)
seen = ("1.2.3.4", record { lim = 5; last = 5 }) ∷ []

seen-IsSynced : IsSynced slow seen
unfolding get
seen-IsSynced = (refl, omega arith, tt)

sweep-unseen_example :
    (allow slow 2000000000001 "1.2.3.4" (sweep slow 2000000000000 seen)).1
    ≡ (allow slow 2000000000001 "1.2.3.4" seen).1
sweep-unseen_example =
    sweep-unseen slow 2000000000000 2000000000001 "1.2.3.4" seen (omega arith) seen-IsSynced
