-- ===== src/Common/Sequencer.antt =====
-- SequencerImpl, source/common/sequencer_impl.{h,cc}: the event loop that asks the rate limiter for
-- permission and calls the target. The dispatcher's part is explicit: which timers are armed, which
-- calls of the target have not called back yet, and that exit() was called. A statistic is the list
-- of its values, the latest first.
pub mod Loop
pub mod Invariant
pub mod Reach
mod Tests
use nighthawk.Base.{
  ℕ, zero, suc, ◌+◌, ◌-◌, ◌*◌, ◌/◌, Bool, true, false, ◌&&◌, if◌then◌else◌, ◌==◌, inc64, List, [],
  ◌∷◌, Option, none, some,
}
use nighthawk.Base.Result.{Result, ok, err, ◌>>=◌}
use nighthawk.Common.RateLimiter.{Now, RateLimiter}
use nighthawk.Common.Termination.{Status, proceed, terminate, fail, World, Chain, evaluate_chain}

-- A timer of the dispatcher; `gone` after its pointer was reset.
pub data Timer : Type 0 where
  idle armed gone : Timer

-- SequencerIdleStrategyOptions
pub data IdleStrategy : Type 0 where
  spin poll sleep : IdleStrategy

-- What a call of the target does: it cannot start, it starts and calls back later, or it starts and
-- calls back during the call, at the given time.
pub data Answer : Type 0 where
  refused started : Answer
  finished : ℕ → Answer

pub record Sequencer (S T : Type 0) : Type 0 where
  pub rate_limiter : S
  pub target : T
  pub termination_predicate : Chain
  pub idle_strategy : IdleStrategy
  pub latency_statistic : List ℕ
  pub blocked_statistic : List ℕ
  pub periodic_timer : Timer
  pub spin_timer : Timer
  pub targets_initiated : ℕ
  pub targets_completed : ℕ
  pub running : Bool
  pub blocked : Bool
  pub blocked_start : ℕ
  pub last_termination_status : Status
  pub failed_terminations : ℕ
  -- the start times of the calls that have not called back
  pub in_flight : List ℕ
  pub exited : Bool

-- One wake-up: the clocks, and the counters that the predicates read.
pub record Instant : Type 0 where
  pub world : World
  pub system_time : ℕ

abbrev pub now_of : Instant → Now
now_of i = record { monotonic_time = i.world.monotonic_time; system_time = i.system_time }

module _ {S T : Type 0} where
  -- The constructor.
  unfoldable pub sequencer : S → T → Chain → IdleStrategy → Sequencer S T
  sequencer limiter target predicate strategy = record {
    rate_limiter = limiter;
    target = target;
    termination_predicate = predicate;
    idle_strategy = strategy;
    latency_statistic = [];
    blocked_statistic = [];
    periodic_timer = idle;
    spin_timer = idle;
    targets_initiated = 0;
    targets_completed = 0;
    running = false;
    blocked = false;
    blocked_start = 0;
    last_termination_status = proceed;
    failed_terminations = 0;
    in_flight = [];
    exited = false;
  }

  -- unblockAndUpdateStatisticIfNeeded()
  unfoldable pub unblock : ℕ → Sequencer S T → Sequencer S T
  unblock now q =
      if q.blocked
      then (record q {
        blocked = false;
        blocked_statistic = (now - q.blocked_start) ∷ q.blocked_statistic;
      })
      else q

  -- updateStartBlockingTimeIfNeeded()
  unfoldable pub start_blocking : ℕ → Sequencer S T → Sequencer S T
  start_blocking now q = if q.blocked then q else record q { blocked = true; blocked_start = now }

  -- The callback that run() hands to the target: started at the first time, called at the second.
  unfoldable pub on_complete : ℕ → ℕ → Sequencer S T → Sequencer S T
  on_complete start now q = record q {
    latency_statistic = (now - start) ∷ q.latency_statistic;
    targets_completed = inc64 q.targets_completed;
    spin_timer = if q.running then armed else q.spin_timer;
  }

  -- The target could start.
  unfoldable pub initiate : Answer → ℕ → Sequencer S T → Sequencer S T
  unfolding unblock on_complete
  initiate refused now q = q
  initiate started now q =
      let q' = unblock now q in
      record q' { targets_initiated = inc64 q'.targets_initiated; in_flight = now ∷ q'.in_flight }
  initiate (finished at) now q =
      let q' = unblock now (on_complete now at q) in
      record q' { targets_initiated = inc64 q'.targets_initiated }

module _ {S T : Type 0} (limiter : RateLimiter S) (call_target : Now → T → Answer × T) where
  -- stop()
  unfoldable pub stop : Bool → Now → Sequencer S T → Sequencer S T
  unfolding unblock
  stop failed now q =
      let (ran_for, s) = limiter.elapsed now q.rate_limiter in
      let stopped = record q {
        rate_limiter = s;
        failed_terminations =
            (if failed then inc64 q.failed_terminations else q.failed_terminations);
        running = false;
        periodic_timer = gone;
        spin_timer = gone;
        exited = true;
      } in
      let unblocked = unblock now.monotonic_time stopped in
      let (ran_for', s') = limiter.elapsed now unblocked.rate_limiter in
      record unblocked { rate_limiter = s' }

  -- The target could not start: the acquisition goes back.
  unfoldable pub give_up : Now → Sequencer S T → Result (Sequencer S T)
  unfolding start_blocking
  give_up now q = do
    let q' = start_blocking now.monotonic_time q
    s ← limiter.release_one now q'.rate_limiter
    ok (record q' { rate_limiter = s })

  -- The limiter's and the target's part of a round.
  unfoldable pub acquired_state : Now → Sequencer S T → Sequencer S T
  acquired_state now q = record q { rate_limiter = (limiter.try_acquire_one now q.rate_limiter).1 }

  unfoldable pub called_state : Now → Sequencer S T → Sequencer S T
  unfolding acquired_state
  called_state now q = record (acquired_state now q) { target = (call_target now q.target).1 }

  -- What follows the call of the target in a round: the loop goes on, or the target could not start
  -- and the loop ends.
  unfoldable pub after_call :
      Answer
      → Now
      → Sequencer S T
      → Option (Result (Sequencer S T))
      → Option (Result (Sequencer S T))
  unfolding give_up
  after_call refused now called rest = some (give_up now called)
  after_call started now called rest = rest
  after_call (finished at) now called rest = rest

  -- The while loop of run(), with fuel for its rounds: `none` means that the fuel ran out.
  unfoldable pub release_targets : ℕ → Now → Sequencer S T → Option (Result (Sequencer S T))
  unfolding after_call acquired_state called_state initiate
  release_targets zero now q = none
  release_targets (suc fuel) now q =
      let answer = (call_target now q.target).0 in
      let called = called_state now q in
      let rest = release_targets fuel now (initiate answer now.monotonic_time called) in
      if (limiter.try_acquire_one now q.rate_limiter).0
      then after_call answer now called rest
      else some (ok (acquired_state now q))

  -- The end of run().
  unfoldable pub reschedule : Bool → Sequencer S T → Sequencer S T
  reschedule from_periodic_timer q =
      if from_periodic_timer then record q { periodic_timer = armed } else (elim q.idle_strategy [
        | spin ↦
            if q.targets_initiated == q.targets_completed
            then record q { spin_timer = armed }
            else q
        | sleep ↦ record q { spin_timer = armed }
        | poll ↦ q
      ])

  unfoldable pub update_status : Instant → Sequencer S T → Sequencer S T
  update_status i q = record q {
    last_termination_status = (elim q.last_termination_status [
      | proceed ↦ evaluate_chain i.world q.termination_predicate
      | terminate ↦ terminate
      | fail ↦ fail
    ]);
  }

  -- How run() goes on after the termination predicates, given the outcome of its loop.
  unfoldable pub after_status :
      Status
      → Bool
      → Now
      → Sequencer S T
      → Option (Result (Sequencer S T))
      → Option (Result (Sequencer S T))
  unfolding stop reschedule
  after_status proceed from_periodic_timer now q none = none
  after_status proceed from_periodic_timer now q (some r) =
      some (r >>= λ p. ok (reschedule from_periodic_timer p))
  after_status terminate from_periodic_timer now q looped = some (ok (stop false now q))
  after_status fail from_periodic_timer now q looped = some (ok (stop true now q))

  -- run()
  unfoldable pub run : ℕ → Bool → Instant → Sequencer S T → Option (Result (Sequencer S T))
  unfolding release_targets update_status after_status
  run fuel from_periodic_timer i q =
      let q' = update_status i q in
      let looped = release_targets fuel (now_of i) q' in
      after_status q'.last_termination_status from_periodic_timer (now_of i) q' looped

  -- start(): the periodic timer, and a first run.
  unfoldable pub start : ℕ → Instant → Sequencer S T → Option (Result (Sequencer S T))
  unfolding run
  start fuel i q = run fuel false i (record q { running = true; periodic_timer = armed })
