-- ===== src/Common/Sequencer/Invariant.antt =====
-- The bookkeeping of SequencerImpl over any sequence of wake-ups and callbacks: sequencer_impl.cc.
use nighthawk.Base.{
  ℕ, zero, suc, ◌+◌, ◌%◌, ◌<◌, ◌≡◌, ◌≢◌, ◌⊎◌, refl, subst, Bool, true, false, length, Option, none,
  some, arith, Bool-cases, inl, inr, word_size, inc64, if◌then◌else◌,
}
use nighthawk.Base.Result.{Result, ok, err}
use nighthawk.Common.RateLimiter.{Now, RateLimiter}
use nighthawk.Common.Termination.{Status, proceed, terminate, fail}
use nighthawk.Common.Sequencer.{
  Timer, armed, gone, Sequencer, Answer, refused, started, finished, Instant, now_of, unblock,
  on_complete, start_blocking, initiate, acquired_state, called_state, after_call, release_targets,
  after_status, reschedule, stop, give_up, run, update_status,
}

abbrev pub one_if : Bool → ℕ
one_if true = 1
one_if false = 0

-- A limiter that accounts for its acquisitions: `granted` counts those not given back.
pub record Accounts {S : Type 0} (limiter : RateLimiter S) (granted : S → ℕ) : Type 0 where
  pub acquires :
      (now : Now) (s : S)
      → granted (limiter.try_acquire_one now s).1
        ≡ granted s + one_if (limiter.try_acquire_one now s).0
  pub releases :
      (now : Now) (s s' : S) → limiter.release_one now s ≡ ok s' → granted s' + 1 ≡ granted s
  pub elapses : (now : Now) (s : S) → granted (limiter.elapsed now s).1 ≡ granted s

-- The status with which it stopped is not `proceed`, and only `fail` counts as a failure.
abbrev pub Ended : Status → ℕ → Type 0
Ended proceed failures = ⊥
Ended terminate failures = failures ≡ 0
Ended fail failures = failures ≡ 1

some-ok-injective :
    {A : Type 0} {a b : A} → ◌≡◌ {A = Option (Result A)} (some (ok a)) (some (ok b)) → a ≡ b
some-ok-injective e = cc

Ended_lem :
    (failed : Bool) (status : Status) {n : ℕ}
    → n ≡ 0
    → Ended status (one_if failed)
    → Ended status (if failed then inc64 n else n)
Ended_lem true proceed e h = h
Ended_lem true terminate e h = ground arith
Ended_lem true fail e h = ground arith
Ended_lem false proceed e h = h
Ended_lem false terminate e h = e
Ended_lem false fail e h = ground arith

module _ {S T : Type 0} (granted : S → ℕ) where
  -- Every call of the target that could start has called back or is in flight, every callback left a
  -- latency, and the acquisitions that the limiter has not got back are the started calls, but for
  -- `ahead` of them.
  pub record IsCounted (ahead : ℕ) (q : Sequencer S T) : Type 0 where
    pub completed_fits : q.targets_completed < word_size
    pub initiated : q.targets_initiated ≡ (q.targets_completed + length q.in_flight) % word_size
    pub measured : q.targets_completed ≡ length q.latency_statistic % word_size
    pub acquired : granted q.rate_limiter % word_size ≡ (q.targets_initiated + ahead) % word_size

  pub record IsRunning (ahead : ℕ) (t : Timer) (q : Sequencer S T) : Type 0 where
    pub counted : IsCounted ahead q
    pub running : q.running ≡ true
    pub proceeding : q.last_termination_status ≡ proceed
    pub periodic : q.periodic_timer ≡ t
    pub spinning : q.spin_timer ≢ gone
    pub stays : q.exited ≡ false
    pub unfailed : q.failed_terminations ≡ 0

  pub record IsStopped (q : Sequencer S T) : Type 0 where
    pub counted : IsCounted 0 q
    pub halted : q.running ≡ false
    pub ended : Ended q.last_termination_status q.failed_terminations
    pub periodic : q.periodic_timer ≡ gone
    pub spinning : q.spin_timer ≡ gone
    pub left : q.exited ≡ true
    pub unblocked : q.blocked ≡ false

  -- Between two events: it runs and the periodic timer will wake it up, or it has stopped for good.
  abbrev pub IsSound : Sequencer S T → Type 0
  IsSound q = IsRunning 0 armed q ⊎ IsStopped q

  initiate-IsRunning :
      (a : Answer) (now : ℕ) (t : Timer) (q : Sequencer S T)
      → a ≢ refused
      → IsRunning 1 t q
      → IsRunning 0 t (initiate a now q)
  unfolding initiate unblock on_complete
  initiate-IsRunning refused now t q h r = absurd (h refl)
  initiate-IsRunning started now t q h r = ground arith
  initiate-IsRunning (finished at) now t q h r = ground arith

module _ {S T : Type 0} (limiter : RateLimiter S) (call_target : Now → T → Answer × T)
    (granted : S → ℕ) (accounts : Accounts limiter granted) where
  called_state-IsRunning :
      (now : Now) (t : Timer) (q : Sequencer S T)
      → (limiter.try_acquire_one now q.rate_limiter).0 ≡ true
      → IsRunning granted 0 t q
      → IsRunning granted 1 t (called_state limiter call_target now q)
  unfolding called_state acquired_state
  called_state-IsRunning now t q acquired r = ground (arith, accounts.acquires now q.rate_limiter)

  acquired_state-IsRunning :
      (now : Now) (t : Timer) (q : Sequencer S T)
      → (limiter.try_acquire_one now q.rate_limiter).0 ≡ false
      → IsRunning granted 0 t q
      → IsRunning granted 0 t (acquired_state limiter call_target now q)
  unfolding acquired_state
  acquired_state-IsRunning now t q acquired r = ground (arith, accounts.acquires now q.rate_limiter)

  give_up-IsRunning :
      (now : Now) (t : Timer) (q : Sequencer S T) {q' : Sequencer S T}
      → IsRunning granted 1 t q
      → give_up limiter call_target now q ≡ ok q'
      → IsRunning granted 0 t q'
  unfolding give_up start_blocking
  give_up-IsRunning now t q {q'} r e =
      ground (arith, accounts.releases now q.rate_limiter q'.rate_limiter)

  reschedule-IsRunning :
      (periodic : Bool) (t : Timer) (q : Sequencer S T)
      → (periodic ≡ true) ⊎ (t ≡ armed)
      → IsRunning granted 0 t q
      → IsRunning granted 0 armed (reschedule limiter call_target periodic q)
  unfolding reschedule
  reschedule-IsRunning periodic t q woken r = ground arith

  stop-IsStopped :
      (failed : Bool) (now : Now) (q : Sequencer S T)
      → IsCounted granted 0 q
      → q.failed_terminations ≡ 0
      → Ended q.last_termination_status (one_if failed)
      → IsStopped granted (stop limiter call_target failed now q)
  unfolding stop unblock
  stop-IsStopped failed now q c u e =
      let s = (limiter.elapsed now q.rate_limiter).1 in
      ground (
        arith,
        accounts.elapses now q.rate_limiter,
        accounts.elapses now s,
        Ended_lem failed q.last_termination_status u e,
      )

  after_call-IsRunning :
      (a : Answer) (now : Now) (t : Timer) (called : Sequencer S T)
      (rest : Option (Result (Sequencer S T))) {q' : Sequencer S T}
      → IsRunning granted 1 t called
      → (rest ≡ some (ok q') → a ≢ refused → IsRunning granted 0 t q')
      → after_call limiter call_target a now called rest ≡ some (ok q')
      → IsRunning granted 0 t q'
  unfolding after_call
  after_call-IsRunning refused now t called rest r ih e =
      give_up-IsRunning now t called r (ground arith)
  after_call-IsRunning started now t called rest r ih e = ih e (λ h. cc)
  after_call-IsRunning (finished at) now t called rest r ih e = ih e (λ h. cc)

  release_targets-IsRunning :
      (fuel : ℕ) (now : Now) (t : Timer) (q : Sequencer S T) {q' : Sequencer S T}
      → IsRunning granted 0 t q
      → release_targets limiter call_target fuel now q ≡ some (ok q')
      → IsRunning granted 0 t q'
  unfolding release_targets
  release_targets-IsRunning zero now t q r e = absurd (ground arith)
  release_targets-IsRunning (suc fuel) now t q {q'} r e =
      let a = (call_target now q.target).0 in
      let called = called_state limiter call_target now q in
      elim (Bool-cases (limiter.try_acquire_one now q.rate_limiter).0) [
        | inr no' ↦
            subst (IsRunning granted 0 t) (some-ok-injective (rw no' at e))
              (acquired_state-IsRunning now t q no' r)
        | inl yes' ↦
            let c = called_state-IsRunning now t q yes' r in
            after_call-IsRunning a now t called _ c
              (λ found ne.
                release_targets-IsRunning fuel now t (initiate a now.monotonic_time called)
                  (initiate-IsRunning granted a now.monotonic_time t called ne c) found)
              (rw yes' at e)
      ]

  after_status-IsSound :
      (st : Status) (periodic : Bool) (now : Now) (t : Timer) (q : Sequencer S T)
      (looped : Option (Result (Sequencer S T))) {q' : Sequencer S T}
      → (periodic ≡ true) ⊎ (t ≡ armed)
      → q.last_termination_status ≡ st
      → IsCounted granted 0 q
      → q.failed_terminations ≡ 0
      → ((p : Sequencer S T) → st ≡ proceed → looped ≡ some (ok p) → IsRunning granted 0 t p)
      → after_status limiter call_target st periodic now q looped ≡ some (ok q')
      → IsSound granted q'
  unfolding after_status
  after_status-IsSound proceed periodic now t q none w s c u keeps e = absurd (ground arith)
  after_status-IsSound proceed periodic now t q (some (ok p)) w s c u keeps e = inl (
      subst (IsRunning granted 0 armed) (some-ok-injective e)
        (reschedule-IsRunning periodic t p w (keeps p refl refl)))
  after_status-IsSound proceed periodic now t q (some (err f)) w s c u keeps e =
      absurd (ground arith)
  after_status-IsSound terminate periodic now t q looped w s c u keeps e =
      inr (
        subst (IsStopped granted) (some-ok-injective e)
          (stop-IsStopped false now q c u (rw s refl)))
  after_status-IsSound fail periodic now t q looped w s c u keeps e =
      inr (
        subst (IsStopped granted) (some-ok-injective e) (stop-IsStopped true now q c u (rw s refl)))

  pub run-IsSound :
      (fuel : ℕ) (periodic : Bool) (t : Timer) (i : Instant) (q : Sequencer S T)
      {q' : Sequencer S T}
      → (periodic ≡ true) ⊎ (t ≡ armed)
      → IsRunning granted 0 t q
      → run limiter call_target fuel periodic i q ≡ some (ok q')
      → IsSound granted q'
  unfolding run update_status
  run-IsSound fuel periodic t i q w r e =
      let u = update_status limiter call_target i q in
      let c : IsCounted granted 0 u = record {
        completed_fits = r.counted.completed_fits;
        initiated = r.counted.initiated;
        measured = r.counted.measured;
        acquired = r.counted.acquired;
      } in
      after_status-IsSound u.last_termination_status periodic (now_of i) t u
        (release_targets limiter call_target fuel (now_of i) u) w refl c r.unfailed
        (λ p st looped.
          release_targets-IsRunning fuel (now_of i) t u
            (record {
              counted = c;
              running = r.running;
              proceeding = st;
              periodic = r.periodic;
              spinning = r.spinning;
              stays = r.stays;
              unfailed = r.unfailed;
            })
            looped)
        e
