-- ===== src/Common/RateLimiter/Delegating.antt =====
-- DelegatingRateLimiterImpl, source/common/rate_limiter_impl.{h,cc}: each acquisition of the wrapped
-- limiter is held back until its time plus an offset of the delegate.
-- DistributionSamplingRateLimiterImpl is this limiter with a sampler's value as the delegate.
pub mod Queue
mod Tests
use nighthawk.Base.{ℕ, ◌+◌, Bool, true, false, not, if◌then◌else◌, ltb, leb, List, [], ◌∷◌}
use nighthawk.Base.Result.{Result, ok, release_assert, ◌>>=◌, ◌>>◌}
use nighthawk.Common.RateLimiter.{Now, RateLimiter}

-- The delegate yields an offset of zero or more nanoseconds, and has a state `G` of its own.
pub record DelegatingRateLimiter (S G : Type 0) : Type 0 where
  pub rate_limiter : S
  pub generator : G
  pub distributed_timings : List ℕ
  pub sanity_check_pending_release : Bool

-- insert(upper_bound(begin, end, x), x) on a sorted list: before the first later timing.
unfoldable pub insert_timing : ℕ → List ℕ → List ℕ
insert_timing x [] = x ∷ []
insert_timing x (y ∷ ys) = if ltb x y then x ∷ y ∷ ys else y ∷ insert_timing x ys

module _ {S G : Type 0} (inner : RateLimiter S) (random_distribution : G → ℕ × G) where
  -- The first half of tryAcquireOne().
  unfoldable pub draw_timing : Now → DelegatingRateLimiter S G → DelegatingRateLimiter S G
  unfolding insert_timing
  draw_timing now l =
      let (acquired, s) = inner.try_acquire_one now l.rate_limiter in
      let (offset, g) = random_distribution l.generator in
      if acquired
      then (record l {
        rate_limiter = s;
        generator = g;
        distributed_timings = insert_timing (now.monotonic_time + offset) l.distributed_timings;
      })
      else record l { rate_limiter = s }

  -- The second half.
  unfoldable pub release_front : Now → DelegatingRateLimiter S G → Bool × DelegatingRateLimiter S G
  release_front now l = elim l.distributed_timings [
    | [] ↦ (false, l)
    | front ∷ timings ↦
        if leb front now.monotonic_time
        then (
          true,
          record l { distributed_timings = timings; sanity_check_pending_release = false },
        )
        else (false, l)
  ]

  unfoldable pub delegating_try_acquire :
      Now → DelegatingRateLimiter S G → Bool × DelegatingRateLimiter S G
  unfolding draw_timing release_front
  delegating_try_acquire now l = release_front now (draw_timing now l)

  unfoldable pub delegating_release :
      Now → DelegatingRateLimiter S G → Result (DelegatingRateLimiter S G)
  delegating_release now l = do
    release_assert (not l.sanity_check_pending_release)
    s ← inner.release_one now l.rate_limiter
    ok (record l { rate_limiter = s; sanity_check_pending_release = true })

  abbrev pub delegating : RateLimiter (DelegatingRateLimiter S G)
  delegating = record {
    try_acquire_one = delegating_try_acquire;
    release_one = delegating_release;
    elapsed = λ now l.
        let (passed, s) = inner.elapsed now l.rate_limiter in
        (passed, record l { rate_limiter = s });
  }
