-- ===== src/Common/Sequencer/Tests.antt =====
-- A sequencer with two acquisitions, a target that calls back later, and a deadline.
use nighthawk.Base.{ℕ, zero, suc, ◌+◌, Bool, true, false, [], ◌∷◌}
use nighthawk.Base.Result.{Result, ok, err, abort}
use nighthawk.Common.RateLimiter.{Now, RateLimiter}
use nighthawk.Common.Termination.{proceed, terminate, Chain, alone, duration}
use nighthawk.Common.Sequencer.{idle, armed, gone, poll, Sequencer, Answer, started, Instant}

-- Acquisitions left, and acquisitions granted.
pub record Stock : Type 0 where
  pub left : ℕ
  pub granted : ℕ

abbrev take_stock : ℕ → ℕ → Bool × Stock
take_stock zero granted = (false, record { left = 0; granted = granted })
take_stock (suc n) granted = (true, record { left = n; granted = granted + 1 })

abbrev return_stock : ℕ → ℕ → Result Stock
return_stock left zero = err abort
return_stock left (suc n) = ok (record { left = suc left; granted = n })

abbrev stock_limiter : RateLimiter Stock
stock_limiter = record {
  try_acquire_one = λ now s. take_stock s.left s.granted;
  release_one = λ now s. return_stock s.left s.granted;
  elapsed = λ now s. (now.monotonic_time, s);
}

abbrev granted_of : Stock → ℕ
granted_of s = s.granted

-- Accepts every call, and counts them.
abbrev eager : Now → ℕ → Answer × ℕ
eager now t = (started, t + 1)

abbrev at : ℕ → Instant
at t = record {
  world = record { monotonic_time = t; counter_value = λ counter. 0 };
  system_time = t;
}

abbrev deadline : Chain
deadline = alone (duration 1000 1)

abbrev both_started : Sequencer Stock ℕ
both_started = record {
  rate_limiter = record { left = 0; granted = 2 };
  target = 2;
  termination_predicate = deadline;
  idle_strategy = poll;
  latency_statistic = [];
  blocked_statistic = [];
  periodic_timer = armed;
  spin_timer = idle;
  targets_initiated = 2;
  targets_completed = 0;
  running = true;
  blocked = false;
  blocked_start = 0;
  last_termination_status = proceed;
  failed_terminations = 0;
  in_flight = 1000 ∷ 1000 ∷ [];
  exited = false;
}

abbrev one_back : Sequencer Stock ℕ
one_back = record both_started {
  latency_statistic = 500 ∷ [];
  spin_timer = armed;
  targets_completed = 1;
  in_flight = 1000 ∷ [];
}

abbrev over : Sequencer Stock ℕ
over = record one_back {
  periodic_timer = gone;
  spin_timer = gone;
  running = false;
  last_termination_status = terminate;
  exited = true;
}
