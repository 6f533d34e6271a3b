-- ===== src/Common/RateLimiter.antt =====
-- The rate limiter interface, include/nighthawk/common/rate_limiter.h, and the clock readings that
-- its implementations work with: source/common/rate_limiter_impl.h, RateLimiterBaseImpl.
-- The implementations are the child modules. A wrapper holds its wrapped limiter as a value of any
-- type with an instance of the interface.
pub mod Pacing
pub mod Bursting
pub mod Scheduled
pub mod Delegating
pub mod Filtering
use nighthawk.Base.{ℕ, ◌-◌, Bool, Option, none, some}
use nighthawk.Base.Result.{Result}

-- One reading of both clocks of the time source, in nanoseconds. The monotonic clock is steady: a
-- later reading is never smaller.
pub record Now : Type 0 where
  pub monotonic_time : ℕ
  pub system_time : ℕ

-- What a call of a limiter returns, and the limiter after the call.
pub record RateLimiter (S : Type 0) : Type 0 where
  pub try_acquire_one : Now → S → Bool × S
  pub release_one : Now → S → Result S
  pub elapsed : Now → S → ℕ × S

-- RateLimiterBaseImpl
pub record Timing : Type 0 where
  pub start_time : Option ℕ
  pub first_acquisition_time : Option ℕ

abbrev pub not_started : Timing
not_started = record { start_time = none; first_acquisition_time = none }

-- RateLimiterBaseImpl::elapsed(): the first call starts the clock.
unfoldable pub base_elapsed : Now → Timing → ℕ × Timing
base_elapsed now t = elim t.start_time [
  | none ↦ (
    now.monotonic_time - now.monotonic_time,
    record { start_time = some now.monotonic_time; first_acquisition_time = some now.system_time },
  )
  | some start ↦ (now.monotonic_time - start, t)
]
