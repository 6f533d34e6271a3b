-- ===== src/Common/RateLimiter/Delegating/Tests.antt =====
-- A queue of held-back acquisitions.
use nighthawk.Base.{ℕ, ◌+◌, ◌≡◌, refl, true, [], ◌∷◌, ◌++◌, arith}
use nighthawk.Base.Result.{Result}
use nighthawk.Common.RateLimiter.{Now, RateLimiter}
use nighthawk.Common.RateLimiter.Delegating.{DelegatingRateLimiter, delegating_try_acquire}
use nighthawk.Common.RateLimiter.Delegating.Queue.{
  IsSorted, Serves, drawn, delegating_try_acquire_lem,
}

abbrev open_limiter : RateLimiter ℕ
open_limiter = record {
  try_acquire_one = λ now s. (true, s + 1);
  release_one = λ now s. Result.ok s;
  elapsed = λ now s. (now.monotonic_time, s);
}

-- Offsets 5, 6, 7 and so on.
abbrev growing : ℕ → ℕ × ℕ
growing n = (n, n + 1)

abbrev at_ten : Now
at_ten = record { monotonic_time = 10; system_time = 10 }

abbrev held : DelegatingRateLimiter ℕ ℕ
held = record {
  rate_limiter = 2;
  generator = 5;
  distributed_timings = 9 ∷ 20 ∷ [];
  sanity_check_pending_release = true;
}

served :
    (delegating_try_acquire open_limiter growing at_ten held).1.distributed_timings ≡ 15 ∷ 20 ∷ []
unfolding delegating_try_acquire
served = refl

delegating_try_acquire_lem_example :
    IsSorted (delegating_try_acquire open_limiter growing at_ten held).1.distributed_timings
    × Serves open_limiter growing at_ten
        (drawn open_limiter growing at_ten held ++ held.distributed_timings)
        (delegating_try_acquire open_limiter growing at_ten held)
delegating_try_acquire_lem_example =
    delegating_try_acquire_lem open_limiter growing at_ten held (omega arith)
