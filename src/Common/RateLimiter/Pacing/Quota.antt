-- ===== src/Common/RateLimiter/Pacing/Quota.antt =====
-- How many acquisitions the time-based limiters of rate_limiter_impl.cc allow.
use native.Mathlib.Nat.{
  le-div_iff_mul-le, mul-le-mul, mul-le-mul_right, div-zero, mul-div-mul_left, div-mul-le_self,
  le_refl, le_trans,
}
use nighthawk.Base.{
  ℕ, zero, suc, ◌+◌, ◌-◌, ◌*◌, ◌/◌, ◌≤◌, ◌<◌, ◌≡◌, arith, is_positive64, ap₂, ◌∙◌, subst, List,
}
use nighthawk.Common.RateLimiter.Pacing.{linear_quota, ramping_quota, round_div, no_counts}
use nighthawk.Common.RateLimiter.Pacing.Refinement.{
  Call, IsOrderly, answers, ledger_answers, empty_ledger, answers_new, is_nonzero-ltb,
  is_positive64-ltb,
}
use nighthawk.Common.RateLimiter.Pacing.{is_nonzero}

-- A polled linear limiter is never half a request or more ahead of the frequency, nor more than
-- half a request behind it.
pub linear_quota_bounds :
    (frequency elapsed : ℕ)
    → (2000000000 * linear_quota frequency elapsed ≤ 2 * (elapsed * frequency) + 1000000000)
      × (2 * (elapsed * frequency) < 2000000000 * linear_quota frequency elapsed + 1000000000)
unfolding linear_quota
linear_quota_bounds frequency elapsed = omega arith

pub linear_quota_mono :
    (frequency a b : ℕ) → a ≤ b → linear_quota frequency a ≤ linear_quota frequency b
unfolding linear_quota
linear_quota_mono frequency a b h = omega (arith, mul-le-mul_right frequency h)

div-le-div_right : (m n d : ℕ) → m ≤ n → m / d ≤ n / d
div-le-div_right m n zero h = rw (div-zero m, div-zero n) (le_refl 0)
div-le-div_right m n (suc d) h =
    (le-div_iff_mul-le (omega arith)).1 (le_trans (div-mul-le_self m (suc d)) h)

round_div_mono : (m n d : ℕ) → m ≤ n → round_div m d ≤ round_div n d
unfolding round_div
round_div_mono m n d h = div-le-div_right (2 * m + d) (2 * n + d) (2 * d) (omega arith)

-- A common factor does not change a rounded quotient.
round_div-mul : (k n d : ℕ) → 0 < k → round_div (k * n) (d * k) ≡ round_div n d
unfolding round_div
round_div-mul k n d h = ap₂ ◌/◌ (grind arith) (grind arith) ∙ mul-div-mul_left (2 * n + d) (2 * d) h

square_mono : (frequency a b : ℕ) → a ≤ b → a * (a * frequency) ≤ b * (b * frequency)
square_mono frequency a b h = mul-le-mul h (mul-le-mul_right frequency h)

ramp_end :
    (ramp_time frequency a : ℕ)
    → a < ramp_time
    → round_div (a * (a * frequency)) (2000000000 * ramp_time)
      ≤ round_div (ramp_time * frequency) 2000000000
ramp_end ramp_time frequency a h =
    subst (λ q. round_div (a * (a * frequency)) (2000000000 * ramp_time) ≤ q)
      (round_div-mul ramp_time (ramp_time * frequency) 2000000000 (omega arith))
      (round_div_mono _ _ (2000000000 * ramp_time)
        (square_mono frequency a ramp_time (omega arith)))

-- The ramp never takes acquisitions back, also where it meets the constant rate.
pub ramping_quota_mono :
    (ramp_time frequency a b : ℕ)
    → a ≤ b
    → ramping_quota ramp_time frequency a ≤ ramping_quota ramp_time frequency b
unfolding ramping_quota
ramping_quota_mono ramp_time frequency a b h = ground (
  arith,
  round_div_mono (a * (a * frequency)) (b * (b * frequency)) (2000000000 * ramp_time)
      (square_mono frequency a b h),
  ramp_end ramp_time frequency a,
  round_div_mono ((a - ramp_time) * frequency) ((b - ramp_time) * frequency) 1000000000
      (mul-le-mul_right frequency (omega arith)),
)

-- A ramping limiter answers any orderly sequence of calls as the ledger does: it grants an
-- acquisition exactly when fewer are outstanding than the ramp allows at that time. Its test of the
-- counter for any value but 0 makes no difference, since the count is never negative.
pub ramping_answers :
    (ramp_time frequency : ℕ) (calls : List Call)
    → IsOrderly (ramping_quota ramp_time frequency) 0 empty_ledger calls
    → answers (ramping_quota ramp_time frequency) is_nonzero no_counts calls
      ≡ ledger_answers (ramping_quota ramp_time frequency) empty_ledger calls
ramping_answers ramp_time frequency =
    answers_new (ramping_quota ramp_time frequency) (ramping_quota_mono ramp_time frequency)
      is_nonzero is_nonzero-ltb

-- A linear limiter answers any orderly sequence of calls as the ledger does: it grants an
-- acquisition exactly when fewer are outstanding than the frequency allows at that time.
pub linear_answers :
    (frequency : ℕ) (calls : List Call)
    → IsOrderly (linear_quota frequency) 0 empty_ledger calls
    → answers (linear_quota frequency) is_positive64 no_counts calls
      ≡ ledger_answers (linear_quota frequency) empty_ledger calls
linear_answers frequency =
    answers_new (linear_quota frequency) (linear_quota_mono frequency) is_positive64
      is_positive64-ltb
