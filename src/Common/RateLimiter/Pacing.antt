-- ===== src/Common/RateLimiter/Pacing.antt =====
-- The limiters that compute their releases from the elapsed time:
-- source/common/rate_limiter_impl.{h,cc}, LinearRateLimiter and LinearRampingRateLimiterImpl.
-- Both keep the same counters and differ in the number of acquisitions that they allow after a
-- given time, and in the test of the counter. The source computes that number in doubles; here it
-- is computed exactly, as a quotient of integers, from times in nanoseconds.
pub mod Refinement
pub mod Quota
mod Tests
use nighthawk.Base.{
  ℕ, ◌+◌, ◌-◌, ◌*◌, ◌/◌, ◌%◌, ◌&&◌, Bool, true, false, not, if◌then◌else◌, ltb, leb, ◌==◌, inc64,
  dec64, sub64, is_positive64, word_size, String,
}
use nighthawk.Base.Result.{Result, ok, throw_if, ◌>>◌}
use nighthawk.Common.RateLimiter.{Now, RateLimiter, Timing, not_started, base_elapsed}

-- acquireable_count_ is the bit pattern of an int64_t, acquired_count_ is a uint64_t.
pub record Counts : Type 0 where
  pub timing : Timing
  pub acquireable_count : ℕ
  pub acquired_count : ℕ

abbrev pub no_counts : Counts
no_counts = record { timing = not_started; acquireable_count = 0; acquired_count = 0 }

-- One of the counted acquisitions is handed out.
unfoldable pub take_one : Counts → Counts
take_one c = record c {
  acquireable_count = dec64 c.acquireable_count;
  acquired_count = inc64 c.acquired_count;
}

-- tryAcquireOne() of both classes. The recursive call of the source finds a positive count, so it
-- hands out one acquisition.
unfoldable pub try_acquire : (ℕ → ℕ) → (ℕ → Bool) → Now → Counts → Bool × Counts
unfolding take_one base_elapsed
try_acquire quota available now c =
    if available c.acquireable_count
    then (true, take_one c)
    else (let (passed, timing) = base_elapsed now c.timing in
        let total = quota passed % word_size in
        let counted = record c {
          timing = timing;
          acquireable_count = sub64 total c.acquired_count;
        } in
        if is_positive64 counted.acquireable_count
        then (true, take_one counted)
        else (false, counted))

-- releaseOne() of both classes.
unfoldable pub give_back : Counts → Counts
give_back c = record c {
  acquireable_count = inc64 c.acquireable_count;
  acquired_count = dec64 c.acquired_count;
}

-- floor((elapsed + interval / 2) / interval), with an interval of 10^9 / frequency nanoseconds.
unfoldable pub linear_quota : ℕ → ℕ → ℕ
linear_quota frequency elapsed = (2 * (elapsed * frequency) + 1000000000) / 2000000000

pub record LinearRateLimiter : Type 0 where
  pub frequency : ℕ
  pub counts : Counts

unfoldable pub linear_rate_limiter : ℕ → Result LinearRateLimiter
linear_rate_limiter frequency = do
  throw_if (leb frequency 0) "frequency must be <= 0"
  ok (record { frequency = frequency; counts = no_counts })

-- The elapsed time is asked by the sequencer as well, and starts the clock too.
unfoldable pub counts_elapsed : Now → Counts → ℕ × Counts
counts_elapsed now c =
    let (passed, timing) = base_elapsed now c.timing in (passed, record c { timing = timing })

abbrev pub linear : RateLimiter LinearRateLimiter
linear = record {
  try_acquire_one = λ now l.
      let (acquired, counts) = try_acquire (linear_quota l.frequency) is_positive64 now l.counts in
      (acquired, record l { counts = counts });
  release_one = λ now l. ok (record l { counts = give_back l.counts });
  elapsed = λ now l.
      let (passed, counts) = counts_elapsed now l.counts in (passed, record l { counts = counts });
}

-- std::round of a quotient of two naturals: halves go up.
unfoldable pub round_div : ℕ → ℕ → ℕ
round_div n d = (2 * n + d) / (2 * d)

-- LinearRampingRateLimiterImpl::tryAcquireOne(): during the ramp half the elapsed time at the
-- current frequency, elapsed / ramp_time of the final one; then total_ramp_requests_ and the full
-- frequency.
unfoldable pub ramping_quota : ℕ → ℕ → ℕ → ℕ
unfolding round_div
ramping_quota ramp_time frequency elapsed =
    if ltb elapsed ramp_time
    then round_div (elapsed * (elapsed * frequency)) (2000000000 * ramp_time)
    else (round_div (ramp_time * frequency) 2000000000
        + round_div ((elapsed - ramp_time) * frequency) 1000000000)

pub record LinearRampingRateLimiter : Type 0 where
  pub ramp_time : ℕ
  pub frequency : ℕ
  pub counts : Counts

-- The constructor, for a ramp time that is not negative.
unfoldable pub linear_ramping_rate_limiter : ℕ → ℕ → Result LinearRampingRateLimiter
linear_ramping_rate_limiter ramp_time frequency = do
  throw_if (leb frequency 0) "frequency must be > 0"
  throw_if (leb ramp_time 0) "ramp_time must be positive"
  ok (record { ramp_time = ramp_time; frequency = frequency; counts = no_counts })

-- `if (acquireable_count_)`: any count but 0.
abbrev pub is_nonzero : ℕ → Bool
is_nonzero w = not (w == 0)

abbrev pub linear_ramping : RateLimiter LinearRampingRateLimiter
linear_ramping = record {
  try_acquire_one = λ now l.
      let (acquired, counts) =
        try_acquire (ramping_quota l.ramp_time l.frequency) is_nonzero now l.counts in
      (acquired, record l { counts = counts });
  release_one = λ now l. ok (record l { counts = give_back l.counts });
  elapsed = λ now l.
      let (passed, counts) = counts_elapsed now l.counts in (passed, record l { counts = counts });
}

-- LinearRampingRateLimiterImplFactory::createRateLimiterPlugin(), from the decoded configuration
-- and options: seconds and nanoseconds of the ramp time, requests per second, and the duration
-- in nanoseconds unless the execution has none.
unfoldable pub create_linear_ramping : ℕ → ℕ → ℕ → Bool → ℕ → Result LinearRampingRateLimiter
unfolding linear_ramping_rate_limiter
create_linear_ramping seconds nanos rps no_duration duration =
    let ramp_time = seconds * 1000000000 + nanos in
    do
      throw_if (leb ramp_time 0) "ramp_time must be positive and > 0ns"
      throw_if (not no_duration && ltb duration ramp_time)
          "ramp_time must be less than or equal to time specified by --duration"
      linear_ramping_rate_limiter ramp_time rps
