-- ===== src/Common/Sequencer/Reach.antt =====
-- Every state that SequencerImpl can get into after start(), for any order of timers and callbacks:
-- sequencer_impl.cc.
use nighthawk.Base.{ℕ, ◌≡◌, true, false, List, ◌∷◌, ◌++◌, some}
use nighthawk.Base.Result.{ok}
use nighthawk.Common.RateLimiter.{Now, RateLimiter}
use nighthawk.Common.Sequencer.{idle, armed, Sequencer, Answer, Instant, on_complete, run}
use nighthawk.Common.Sequencer.Invariant.{Accounts, IsStopped}

module _ {S T : Type 0} (limiter : RateLimiter S) (call_target : Now → T → Answer × T) where
  -- One event of the dispatcher. A timer fires only if it is armed, and is idle in its callback.
  pub data Step (q q' : Sequencer S T) : Type 0 where
    periodic_fires :
        (fuel : ℕ) (i : Instant)
        → q.periodic_timer ≡ armed
        → run limiter call_target fuel true i (record q { periodic_timer = idle }) ≡ some (ok q')
        → Step q q'
    spin_fires :
        (fuel : ℕ) (i : Instant)
        → q.spin_timer ≡ armed
        → run limiter call_target fuel false i (record q { spin_timer = idle }) ≡ some (ok q')
        → Step q q'
    calls_back :
        (before : List ℕ) (started now : ℕ) (after : List ℕ)
        → q.in_flight ≡ before ++ (started ∷ after)
        → q' ≡ on_complete started now (record q { in_flight = before ++ after })
        → Step q q'

  pub data Reach (q : Sequencer S T) : Sequencer S T → Type 0 where
    here : Reach q q
    next : {p p' : Sequencer S T} → Reach q p → Step p p' → Reach q p'

  module _ (granted : S → ℕ) (accounts : Accounts limiter granted) where
    -- What happens after stop(): nothing is started any more.
    pub record IsQuiet (q q' : Sequencer S T) : Type 0 where
      pub same_initiated : q'.targets_initiated ≡ q.targets_initiated
      pub same_rate_limiter : q'.rate_limiter ≡ q.rate_limiter
      pub same_target : q'.target ≡ q.target
      pub same_blocked : q'.blocked_statistic ≡ q.blocked_statistic
      pub stopped : IsStopped granted q'
