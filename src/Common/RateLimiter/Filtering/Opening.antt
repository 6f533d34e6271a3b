-- ===== src/Common/RateLimiter/Filtering/Opening.antt =====
-- How GraduallyOpeningRateLimiterFilter opens: rate_limiter_impl.cc.
use native.Mathlib.Nat.{mul-le-mul_right, mul-lt-mul_of_pos_left}
use nighthawk.Base.{
  ℕ, ◌+◌, ◌*◌, ◌≤◌, ◌<◌, ◌≡◌, refl, true, false, ltb, if◌then◌else◌, arith, Bool-cases, inl, inr,
  zero, suc, ◌⊎◌, ltb→lt, lt→ltb,
}
use nighthawk.Common.RateLimiter.{Now, RateLimiter}
use nighthawk.Common.RateLimiter.Filtering.{
  Sampler, GraduallyOpeningFilter, opens, gradual_try_acquire,
}

-- The number of values 1 .. n of the provider for which the filter opens.
unfoldable pub opening_values : ℕ → ℕ → ℕ → ℕ → ℕ
opening_values ramp_time max elapsed zero = 0
opening_values ramp_time max elapsed (suc n) =
    opening_values ramp_time max elapsed n + (if opens ramp_time max elapsed (suc n) then 1 else 0)

module _ (ramp_time max elapsed : ℕ) where
  -- Either all of the first n values open the filter, or just those below the quotient.
  abbrev Splits : ℕ → ℕ → Type 0
  Splits n k =
      ((k ≡ n) × (n * ramp_time < elapsed * max))
      ⊎ ((k ≤ n) × (k * ramp_time < elapsed * max) × (elapsed * max ≤ (k + 1) * ramp_time))

  opening_values-Splits :
      (n : ℕ) → 0 < elapsed * max → Splits n (opening_values ramp_time max elapsed n)
  unfolding opening_values opens
  opening_values-Splits zero h = inl (refl, grind arith)
  opening_values-Splits (suc n) h = elim (opening_values-Splits n h) [
    | inl (all, low) ↦ elim (Bool-cases (ltb (suc n * ramp_time) (elapsed * max))) [
      | inl lower ↦ rw lower (inl (omega arith, ltb→lt _ _ lower))
      | inr high ↦
          rw high (inr (omega (arith, all), grind (arith, all, low), grind (arith, all, high)))
    ]
    | inr (some', low, high) ↦ grind (
      arith,
      mul-le-mul_right {m = opening_values ramp_time max elapsed n + 1} {n = suc n} ramp_time,
    )
  ]

-- During the ramp the number k of values 1 .. max that open the filter is the elapsed fraction of
-- max: k / max is below elapsed / ramp_time, and (k + 1) / max is not. So the chance to pass grows
-- linearly from 0 to 1.
pub opening_values_linear :
    (ramp_time max elapsed : ℕ)
    → 0 < max
    → 0 < elapsed
    → elapsed < ramp_time
    → (opening_values ramp_time max elapsed max * ramp_time < elapsed * max)
      × (elapsed * max ≤ (opening_values ramp_time max elapsed max + 1) * ramp_time)
opening_values_linear ramp_time max elapsed some_max begun ramping =
    elim (opening_values-Splits ramp_time max elapsed max (grind arith)) [
      | inl (all, low) ↦ absurd (
          grind (
            arith,
            mul-lt-mul_of_pos_left {m = elapsed} {n = ramp_time} {k = max} ramping some_max,
          ))
      | inr (some', low, high) ↦ (low, high)
    ]

-- A provider that yields the value, of values 1 .. max.
abbrev pub always : {G : Type 0} → ℕ → ℕ → Sampler G
always max value = record { get_value = λ g. (value, g); min = 1; max = max }

module _ {S G : Type 0} (inner : RateLimiter S) (max : ℕ) (now : Now)
    (f : GraduallyOpeningFilter S G) where
  -- The number of values 1 .. n with which the limiter grants an acquisition.
  abbrev pub grants : ℕ → ℕ
  grants zero = 0
  grants (suc n) =
      grants n + (if (gradual_try_acquire inner (always max (suc n)) now f).0 then 1 else 0)

  -- The time that has passed, as the wrapped limiter has it after its grant.
  abbrev pub passed : ℕ
  passed = (inner.elapsed now (inner.try_acquire_one now f.rate_limiter).1).0

  ramping_answer :
      (value : ℕ)
      → (inner.try_acquire_one now f.rate_limiter).0 ≡ true
      → passed < f.ramp_time
      → (gradual_try_acquire inner (always max value) now f).0 ≡ opens f.ramp_time max passed value
  unfolding gradual_try_acquire
  ramping_answer value granted ramping = rw (granted, lt→ltb passed f.ramp_time ramping) refl

  open_answer :
      (value : ℕ)
      → (inner.try_acquire_one now f.rate_limiter).0 ≡ true
      → f.ramp_time ≤ passed
      → (gradual_try_acquire inner (always max value) now f).0 ≡ true
  unfolding gradual_try_acquire
  open_answer value granted over = rw granted (ground (arith, over))

  refused_answer :
      (value : ℕ)
      → (inner.try_acquire_one now f.rate_limiter).0 ≡ false
      → (gradual_try_acquire inner (always max value) now f).0 ≡ false
  unfolding gradual_try_acquire
  refused_answer value refused = rw refused refl

  grants-opening_values :
      (n : ℕ)
      → (inner.try_acquire_one now f.rate_limiter).0 ≡ true
      → passed < f.ramp_time
      → grants n ≡ opening_values f.ramp_time max passed n
  unfolding opening_values
  grants-opening_values zero granted ramping = refl
  grants-opening_values (suc n) granted ramping =
      rw (grants-opening_values n granted ramping, ramping_answer (suc n) granted ramping) refl

  all_granted :
      (n : ℕ)
      → (inner.try_acquire_one now f.rate_limiter).0 ≡ true
      → f.ramp_time ≤ passed
      → grants n ≡ n
  all_granted zero granted over = refl
  all_granted (suc n) granted over =
      rw (all_granted n granted over, open_answer (suc n) granted over) (omega arith)

  none_granted : (n : ℕ) → (inner.try_acquire_one now f.rate_limiter).0 ≡ false → grants n ≡ 0
  none_granted zero refused = refl
  none_granted (suc n) refused = rw (none_granted n refused, refused_answer (suc n) refused) refl

  -- How many of the values 1 .. max of the provider let an acquisition pass: none if the wrapped limiter
  -- refuses. If it grants, it is all of them from the end of the ramp on; during the ramp it is the
  -- elapsed fraction of max, rounded: their number k has k / max below passed / ramp_time, and
  -- (k + 1) / max not below it.
  pub gradual_grants :
      0 < max
      → 0 < passed
      → (((inner.try_acquire_one now f.rate_limiter).0 ≡ false) × (grants max ≡ 0))
        ⊎ (((inner.try_acquire_one now f.rate_limiter).0 ≡ true)
            × (((f.ramp_time ≤ passed) × (grants max ≡ max))
                ⊎ ((passed < f.ramp_time)
                    × (grants max * f.ramp_time < passed * max)
                    × (passed * max ≤ (grants max + 1) * f.ramp_time))))
  gradual_grants some_max begun = elim (Bool-cases (inner.try_acquire_one now f.rate_limiter).0) [
    | inr refused ↦ inl (refused, none_granted max refused)
    | inl granted ↦ inr (
      granted,
      (elim (Bool-cases (ltb passed f.ramp_time)) [
        | inr over ↦
            let after : f.ramp_time ≤ passed = ground (arith, over) in
            inl (after, all_granted max granted after)
        | inl early ↦
            let ramping = ltb→lt passed f.ramp_time early in
            let same = grants-opening_values max granted ramping in
            let (low, high) = opening_values_linear f.ramp_time max passed some_max begun ramping in
            inr (ramping, rw same low, rw same high)
      ]),
    )
  ]
