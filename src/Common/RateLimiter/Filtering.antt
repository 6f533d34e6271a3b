-- ===== src/Common/RateLimiter/Filtering.antt =====
-- FilteringRateLimiterImpl and GraduallyOpeningRateLimiterFilter,
-- source/common/rate_limiter_impl.{h,cc}. The probability of the latter is computed exactly here,
-- where the source works with doubles.
pub mod Opening
mod Tests
use nighthawk.Base.{ℕ, ◌*◌, Bool, true, false, not, if◌then◌else◌, ltb, leb, ◌==◌}
use nighthawk.Base.Result.{Result, ok, throw_if, ◌>>=◌, ◌>>◌}
use nighthawk.Common.RateLimiter.{Now, RateLimiter}

-- FilteringRateLimiterImpl::tryAcquireOne(): the filter is a callback that may change its owner `F`,
-- which holds the wrapped limiter.
unfoldable pub filtering_try_acquire :
    {F : Type 0} → (Now → F → Bool × F) → (Now → F → Bool × F) → Now → F → Bool × F
filtering_try_acquire try_acquire filter now f =
    let (acquired, f') = try_acquire now f in
    let answer = filter now f' in if acquired then answer else (false, f')

-- DiscreteNumericDistributionSampler
pub record Sampler (G : Type 0) : Type 0 where
  pub get_value : G → ℕ × G
  pub min : ℕ
  pub max : ℕ

pub record GraduallyOpeningFilter (S G : Type 0) : Type 0 where
  pub rate_limiter : S
  pub generator : G
  pub ramp_time : ℕ

-- The probability (elapsed / ramp_time) compared with a random number (value / max).
unfoldable pub opens : ℕ → ℕ → ℕ → ℕ → Bool
opens ramp_time max elapsed value = ltb (value * ramp_time) (elapsed * max)

module _ {S G : Type 0} (inner : RateLimiter S) (provider : Sampler G) where
  -- The constructor, for a ramp time that is not negative.
  unfoldable pub gradually_opening_filter : S → G → ℕ → Result (GraduallyOpeningFilter S G)
  gradually_opening_filter rate_limiter generator ramp_time = do
    throw_if (leb ramp_time 0) "ramp_time must be positive and > 0ns"
    throw_if (not (provider.min == 1)) "min value of the distribution provider must equal 1"
    throw_if (not (provider.max == 1000000))
        "max value of the distribution provider must equal 1000000"
    ok (record { rate_limiter = rate_limiter; generator = generator; ramp_time = ramp_time })

  -- The wrapped limiter's call, which filtering_try_acquire makes first.
  unfoldable pub inner_try_acquire :
      Now → GraduallyOpeningFilter S G → Bool × GraduallyOpeningFilter S G
  inner_try_acquire now f =
      let (acquired, s) = inner.try_acquire_one now f.rate_limiter in
      (acquired, record f { rate_limiter = s })

  -- The filter of GraduallyOpeningRateLimiterFilter.
  unfoldable pub gradual_filter :
      Now → GraduallyOpeningFilter S G → Bool × GraduallyOpeningFilter S G
  unfolding opens
  gradual_filter now f =
      let (passed, s) = inner.elapsed now f.rate_limiter in
      let f' = record f { rate_limiter = s } in
      let (value, g) = provider.get_value f.generator in
      if ltb passed f.ramp_time
      then (opens f.ramp_time provider.max passed value, record f' { generator = g })
      else (true, f')

  unfoldable pub gradual_try_acquire :
      Now → GraduallyOpeningFilter S G → Bool × GraduallyOpeningFilter S G
  unfolding filtering_try_acquire inner_try_acquire gradual_filter
  gradual_try_acquire = filtering_try_acquire inner_try_acquire gradual_filter

  unfoldable pub gradual_release :
      Now → GraduallyOpeningFilter S G → Result (GraduallyOpeningFilter S G)
  gradual_release now f = do
    s ← inner.release_one now f.rate_limiter
    ok (record f { rate_limiter = s })
