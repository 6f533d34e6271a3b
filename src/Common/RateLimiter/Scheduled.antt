-- ===== src/Common/RateLimiter/Scheduled.antt =====
-- ScheduledStartingRateLimiter, source/common/rate_limiter_impl.{h,cc}.
pub mod Laws
mod Tests
use nighthawk.Base.{ℕ, Bool, true, false, if◌then◌else◌, ltb, List, [], ◌∷◌}
use nighthawk.Base.Result.{Result, throw_if, ◌>>=◌, ◌>>◌, ok}
use nighthawk.Common.RateLimiter.{Now, RateLimiter}

pub record ScheduledStartingRateLimiter (S : Type 0) : Type 0 where
  pub rate_limiter : S
  pub scheduled_starting_time : ℕ
  pub aquisition_attempted : Bool

module _ {S : Type 0} (inner : RateLimiter S) where
  -- The two branches set the same flag; the second logs if it was not set before.
  unfoldable pub scheduled_try_acquire :
      Now → ScheduledStartingRateLimiter S → Bool × ScheduledStartingRateLimiter S
  scheduled_try_acquire now l =
      let attempted = record l { aquisition_attempted = true } in
      let (acquired, s) = inner.try_acquire_one now l.rate_limiter in
      if ltb now.monotonic_time l.scheduled_starting_time
      then (false, attempted)
      else (acquired, record attempted { rate_limiter = s })

  unfoldable pub scheduled_release :
      Now → ScheduledStartingRateLimiter S → Result (ScheduledStartingRateLimiter S)
  scheduled_release now l = do
    throw_if (ltb now.monotonic_time l.scheduled_starting_time) "Unexpected call to releaseOne()"
    s ← inner.release_one now l.rate_limiter
    ok (record l { rate_limiter = s })

  abbrev pub scheduled : RateLimiter (ScheduledStartingRateLimiter S)
  scheduled = record {
    try_acquire_one = scheduled_try_acquire;
    release_one = scheduled_release;
    elapsed = λ now l.
        let (passed, s) = inner.elapsed now l.rate_limiter in
        (passed, record l { rate_limiter = s });
  }
