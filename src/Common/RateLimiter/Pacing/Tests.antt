-- ===== src/Common/RateLimiter/Pacing/Tests.antt =====
-- Concrete runs of the time-based limiters.
use nighthawk.Base.{ℕ, ◌≡◌, refl, true, false, List, [], ◌∷◌, arith, is_positive64}
use nighthawk.Common.RateLimiter.Pacing.{no_counts, linear_quota, ramping_quota, is_nonzero}
use nighthawk.Common.RateLimiter.Pacing.Refinement.{
  Call, acquire, release, empty_ledger, answers, ledger_answers,
}
use nighthawk.Common.RateLimiter.Pacing.Quota.{linear_answers, ramping_answers}

abbrev at : ℕ → Call
at t = acquire (record { monotonic_time = t; system_time = t })

-- Three per second: the first acquisitions are due after 1/6 s and 1/2 s.
abbrev polls : List Call
polls =
    at 1000000000
    ∷ at 1166000000
    ∷ at 1167000000
    ∷ release
    ∷ at 1168000000
    ∷ at 1168000000
    ∷ at 1500000000
    ∷ []

linear_run :
    answers (linear_quota 3) is_positive64 no_counts polls
    ≡ false ∷ false ∷ true ∷ true ∷ false ∷ true ∷ []
unfolding answers linear_quota
linear_run = refl

linear_answers_example :
    answers (linear_quota 3) is_positive64 no_counts polls
    ≡ ledger_answers (linear_quota 3) empty_ledger polls
unfolding linear_quota
linear_answers_example = linear_answers 3 polls (omega arith)

ramping_answers_example :
    answers (ramping_quota 1000000000 1000) is_nonzero no_counts polls
    ≡ ledger_answers (ramping_quota 1000000000 1000) empty_ledger polls
unfolding ramping_quota
ramping_answers_example = ramping_answers 1000000000 1000 polls (omega arith)
