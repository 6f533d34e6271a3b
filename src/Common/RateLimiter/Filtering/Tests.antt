-- ===== src/Common/RateLimiter/Filtering/Tests.antt =====
-- A filter that opens over eight nanoseconds.
use nighthawk.Base.{ℕ, ◌+◌, ◌*◌, ◌≤◌, ◌<◌, ◌≡◌, refl, ◌⊎◌, true, false, arith}
use nighthawk.Base.Result.{Result}
use nighthawk.Common.RateLimiter.{Now, RateLimiter}
use nighthawk.Common.RateLimiter.Filtering.{Sampler, GraduallyOpeningFilter, gradual_try_acquire}
use nighthawk.Common.RateLimiter.Filtering.Opening.{grants, gradual_grants}

abbrev open_limiter : RateLimiter ℕ
open_limiter = record {
  try_acquire_one = λ now s. (true, s + 1);
  release_one = λ now s. Result.ok s;
  elapsed = λ now s. (now.monotonic_time, s);
}

abbrev counting : Sampler ℕ
counting = record { get_value = λ g. (g, g + 1); min = 1; max = 1000000 }

abbrev ramp : GraduallyOpeningFilter ℕ ℕ
ramp = record { rate_limiter = 0; generator = 500000; ramp_time = 8 }

abbrev at_five : Now
at_five = record { monotonic_time = 5; system_time = 5 }

passes_at_five :
    gradual_try_acquire open_limiter counting at_five ramp
    ≡ (true, record ramp { rate_limiter = 1; generator = 500001 })
unfolding gradual_try_acquire
passes_at_five = refl

-- After five of eight nanoseconds, with ten values.
gradual_grants_example :
    (((open_limiter.try_acquire_one at_five 0).0 ≡ false)
      × (grants open_limiter 10 at_five ramp 10 ≡ 0))
    ⊎ (((open_limiter.try_acquire_one at_five 0).0 ≡ true)
        × (((8 ≤ 5) × (grants open_limiter 10 at_five ramp 10 ≡ 10))
            ⊎ ((5 < 8)
                × (grants open_limiter 10 at_five ramp 10 * 8 < 5 * 10)
                × (5 * 10 ≤ (grants open_limiter 10 at_five ramp 10 + 1) * 8))))
gradual_grants_example = gradual_grants open_limiter 10 at_five ramp (omega arith) (omega arith)
