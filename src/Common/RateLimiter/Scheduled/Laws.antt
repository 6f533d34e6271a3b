-- ===== src/Common/RateLimiter/Scheduled/Laws.antt =====
-- Before and after the scheduled start: ScheduledStartingRateLimiter, rate_limiter_impl.cc.
use nighthawk.Base.{
  ℕ, ◌≡◌, refl, ap, Bool, true, false, if◌then◌else◌, ltb, List, [], ◌∷◌, Bool-cases, inl, inr,
}
use nighthawk.Common.RateLimiter.{Now, RateLimiter}
use nighthawk.Common.RateLimiter.Scheduled.{
  ScheduledStartingRateLimiter, scheduled, scheduled_try_acquire,
}

-- What a limiter answers to a sequence of polls.
unfoldable pub poll : {S : Type 0} → RateLimiter S → S → List Now → List Bool
unfolding scheduled_try_acquire
poll limiter s [] = []
poll limiter s (now ∷ polls) =
    let (acquired, s') = limiter.try_acquire_one now s in acquired ∷ poll limiter s' polls

-- The polls from the start on.
unfoldable pub from_start : ℕ → List Now → List Now
from_start start [] = []
from_start start (now ∷ polls) =
    let rest = from_start start polls in if ltb now.monotonic_time start then rest else now ∷ rest

-- The given answers at the polls from the start on, and a refusal at each poll before it.
unfoldable pub refuse_before : ℕ → List Now → List Bool → List Bool
refuse_before start [] answers = []
refuse_before start (now ∷ polls) [] = false ∷ refuse_before start polls []
refuse_before start (now ∷ polls) (a ∷ answers) =
    if ltb now.monotonic_time start
    then false ∷ refuse_before start polls (a ∷ answers)
    else a ∷ refuse_before start polls answers

module _ {S : Type 0} (inner : RateLimiter S) where
  refused_before :
      (start : ℕ) (now : Now) (polls : List Now) (answers : List Bool)
      → ltb now.monotonic_time start ≡ true
      → refuse_before start (now ∷ polls) answers ≡ false ∷ refuse_before start polls answers
  unfolding refuse_before
  refused_before start now polls [] h = refl
  refused_before start now polls (a ∷ answers) h = rw h

  -- Whatever the order of the polls, the limiter refuses each one before its scheduled start, and
  -- answers the others as the wrapped limiter would if it had seen only those.
  pub poll-scheduled :
      (l : ScheduledStartingRateLimiter S) (polls : List Now)
      → poll (scheduled inner) l polls
        ≡ refuse_before l.scheduled_starting_time polls
            (poll inner l.rate_limiter (from_start l.scheduled_starting_time polls))
  unfolding poll from_start scheduled_try_acquire refuse_before
  poll-scheduled l [] = refl
  poll-scheduled l (now ∷ polls) =
      let start = l.scheduled_starting_time in
      elim (Bool-cases (ltb now.monotonic_time start)) [
        | inl early ↦
            rw
              (
                early,
                refused_before start now polls (poll inner l.rate_limiter (from_start start polls))
                    early,
              )
              (ap (λ rest. false ∷ rest)
                (poll-scheduled (record l { aquisition_attempted = true }) polls))
        | inr late ↦
            let (acquired, s) = inner.try_acquire_one now l.rate_limiter in
            rw (late, late)
              (ap (λ rest. acquired ∷ rest)
                (poll-scheduled (record l { aquisition_attempted = true; rate_limiter = s }) polls))
      ]
