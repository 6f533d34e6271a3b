-- ===== src/Common/RateLimiter/Bursting/Tests.antt =====
-- Concrete bursts of three from a linear limiter of a thousand per second.
use nighthawk.Base.{ℕ, ◌+◌, ◌≡◌, refl, Bool, true, false, none, some, arith}
use nighthawk.Base.Result.{Result}
use nighthawk.Common.RateLimiter.{Now, RateLimiter}
use nighthawk.Common.RateLimiter.Bursting.{
  BurstingRateLimiter, bursting_rate_limiter, bursting_try_acquire,
}
use nighthawk.Common.RateLimiter.Bursting.Cycle.{Outcome, bursting_try_acquire_lem}

-- A wrapped limiter that grants for ever and counts how often it did.
abbrev open_limiter : RateLimiter ℕ
open_limiter = record {
  try_acquire_one = λ now s. (true, s + 1);
  release_one = λ now s. Result.ok s;
  elapsed = λ now s. (now.monotonic_time, s);
}

abbrev noon : Now
noon = record { monotonic_time = 12; system_time = 12 }

abbrev fresh : BurstingRateLimiter ℕ
fresh = record {
  rate_limiter = 0;
  burst_size = 3;
  accumulated = 0;
  releasing = false;
  previously_releasing = none;
}

abbrev handed_out : BurstingRateLimiter ℕ
handed_out = record {
  rate_limiter = 3;
  burst_size = 3;
  accumulated = 2;
  releasing = true;
  previously_releasing = some true;
}

new_limiter : bursting_rate_limiter 0 3 ≡ fresh
unfolding bursting_rate_limiter
new_limiter = refl

first_burst : bursting_try_acquire 3 open_limiter noon fresh ≡ some (true, handed_out)
unfolding bursting_try_acquire
first_burst = refl

bursting_try_acquire_lem_example :
    (r : Bool × BurstingRateLimiter ℕ) × (bursting_try_acquire 3 open_limiter noon fresh ≡ some r)
    × Outcome (λ s. s) fresh r
bursting_try_acquire_lem_example =
    bursting_try_acquire_lem open_limiter (λ s. s) (λ now s. refl) 3 noon fresh (omega arith)
      (record { fits = omega arith; level = omega arith })
