-- ===== src/Common/RateLimiter/Bursting.antt =====
-- BurstingRateLimiter, source/common/rate_limiter_impl.{h,cc}: it saves up acquisitions of the
-- wrapped limiter until there are burst_size of them, and then hands them out without asking.
pub mod Cycle
mod Tests
use nighthawk.Base.{
  ℕ, zero, suc, ◌+◌, ◌%◌, Bool, true, false, if◌then◌else◌, ltb, ◌==◌, inc64, dec64, Option, none,
  some,
}
use nighthawk.Base.Result.{Result, ok}
use nighthawk.Common.RateLimiter.{Now, RateLimiter}

pub record BurstingRateLimiter (S : Type 0) : Type 0 where
  pub rate_limiter : S
  pub burst_size : ℕ
  pub accumulated : ℕ
  pub releasing : Bool
  pub previously_releasing : Option Bool

module _ {S : Type 0} where
  unfoldable pub bursting_rate_limiter : S → ℕ → BurstingRateLimiter S
  bursting_rate_limiter rate_limiter burst_size = record {
    rate_limiter = rate_limiter;
    burst_size = burst_size;
    accumulated = 0;
    releasing = false;
    previously_releasing = none;
  }

  -- The branch of tryAcquireOne() in release mode.
  unfoldable pub release_burst : BurstingRateLimiter S → Bool × BurstingRateLimiter S
  release_burst b =
      let accumulated = dec64 b.accumulated in
      (true, record b { accumulated = accumulated; releasing = ltb 0 accumulated })

  -- One more acquisition of the wrapped limiter, which is `s` after it.
  unfoldable pub collect : S → BurstingRateLimiter S → BurstingRateLimiter S
  collect s b = record b { rate_limiter = s; accumulated = inc64 b.accumulated }

  -- The burst is full: release mode, and the first lines of the recursive tryAcquireOne().
  unfoldable pub enter_release : BurstingRateLimiter S → BurstingRateLimiter S
  enter_release b = record b { releasing = true; previously_releasing = some true }

  -- The wrapped limiter refuses.
  unfoldable pub keep_saving : S → BurstingRateLimiter S → BurstingRateLimiter S
  keep_saving s b = record b { rate_limiter = s; previously_releasing = none }

  -- The loop that asks the wrapped limiter, with fuel for its rounds: `none` means that the fuel
  -- ran out. On a full burst it starts tryAcquireOne() again, which takes the branch of release
  -- mode.
  unfoldable pub accumulate :
      ℕ → RateLimiter S → Now → BurstingRateLimiter S → Option (Bool × BurstingRateLimiter S)
  unfolding release_burst collect enter_release keep_saving
  accumulate zero inner now b = none
  accumulate (suc fuel) inner now b =
      let (acquired, s) = inner.try_acquire_one now b.rate_limiter in
      let collected = collect s b in
      let rest = accumulate fuel inner now collected in
      if acquired
      then (if collected.accumulated % b.burst_size == 0
          then some (release_burst (enter_release collected))
          else rest)
      else some (false, keep_saving s b)

  -- tryAcquireOne()
  unfoldable pub bursting_try_acquire :
      ℕ → RateLimiter S → Now → BurstingRateLimiter S → Option (Bool × BurstingRateLimiter S)
  unfolding accumulate release_burst
  bursting_try_acquire fuel inner now b =
      let b' = record b { previously_releasing = some b.releasing } in
      if b.releasing then some (release_burst b') else accumulate fuel inner now b'

  -- releaseOne(). The ASSERTs are checks of debug builds.
  unfoldable pub bursting_release : BurstingRateLimiter S → BurstingRateLimiter S
  bursting_release b = record b {
    accumulated = inc64 b.accumulated;
    releasing = true;
    previously_releasing = none;
  }

  -- The limiter as one that can be wrapped in turn. Fuel for one burst is enough for a limiter that is
  -- well formed.
  unfoldable pub bursting_try_acquire_one :
      RateLimiter S → Now → BurstingRateLimiter S → Bool × BurstingRateLimiter S
  unfolding bursting_try_acquire
  bursting_try_acquire_one inner now b = elim (bursting_try_acquire b.burst_size inner now b) [
    | some result ↦ result
    | none ↦ (false, b)
  ]

  abbrev pub bursting : RateLimiter S → RateLimiter (BurstingRateLimiter S)
  bursting inner = record {
    try_acquire_one = bursting_try_acquire_one inner;
    release_one = λ now b. ok (bursting_release b);
    elapsed = λ now b.
        let (passed, s) = inner.elapsed now b.rate_limiter in
        (passed, record b { rate_limiter = s });
  }
