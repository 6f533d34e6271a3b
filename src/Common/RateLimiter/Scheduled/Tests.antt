-- ===== src/Common/RateLimiter/Scheduled/Tests.antt =====
-- Polls around a scheduled start.
use nighthawk.Base.{ℕ, ◌+◌, ◌≡◌, refl, true, false, List, [], ◌∷◌}
use nighthawk.Base.Result.{Result}
use nighthawk.Common.RateLimiter.{Now, RateLimiter}
use nighthawk.Common.RateLimiter.Scheduled.{ScheduledStartingRateLimiter, scheduled}
use nighthawk.Common.RateLimiter.Scheduled.Laws.{poll, from_start, refuse_before, poll-scheduled}

-- A wrapped limiter with a stock of acquisitions.
abbrev stock : RateLimiter ℕ
stock = record {
  try_acquire_one = λ now s. elim s [ ℕ.zero ↦ (false, 0) | ℕ.suc n ↦ (true, n) ];
  release_one = λ now s. Result.ok (s + 1);
  elapsed = λ now s. (now.monotonic_time, s);
}

abbrev at : ℕ → Now
at t = record { monotonic_time = t; system_time = t }

abbrev starts_at_ten : ScheduledStartingRateLimiter ℕ
starts_at_ten = record {
  rate_limiter = 1;
  scheduled_starting_time = 10;
  aquisition_attempted = false;
}

abbrev polls : List Now
polls = at 9 ∷ at 10 ∷ at 11 ∷ []

polled : poll (scheduled stock) starts_at_ten polls ≡ false ∷ true ∷ false ∷ []
unfolding poll
polled = refl

poll-scheduled_example :
    poll (scheduled stock) starts_at_ten polls
    ≡ refuse_before 10 polls (poll stock 1 (from_start 10 polls))
poll-scheduled_example = poll-scheduled stock starts_at_ten polls
