-- ===== src/AdaptiveLoad/Session.antt =====
-- AdaptiveLoadControllerImpl, source/adaptive_load/adaptive_load_controller_impl.cc: the adjusting
-- and the testing stage of a session. The step controller, the Nighthawk service and the metrics
-- evaluator are parameters; the plugins are loaded before, and the cooldown only passes time.
pub mod Outcome
pub mod Ends
mod Tests
use nighthawk.Base.{
  ℕ, Bool, true, false, not, ◌&&◌, if◌then◌else◌, ltb, List, [], ◌∷◌, ◌++◌, Option, none, some,
  String,
}
use nighthawk.Base.Text.{str_cat}
use nighthawk.Base.Status.{StatusOr, ok, error, Error, deadline_exceeded, aborted, fail_with, ◌>>=◌}

-- include/nighthawk/adaptive_load/step_controller.h: a controller with state `C`, command line
-- options `O` and benchmark results `B`.
pub record StepController (C O B : Type 0) : Type 0 where
  pub current_options : C → StatusOr O
  pub update_and_recompute : B → C → C
  pub is_converged : C → Bool
  pub is_doomed : C → Option String

-- One benchmark: what the service answers to given options, what the evaluator makes of the
-- response, and the time from the start of the stage to the check of the deadline.
pub record Round (O R B : Type 0) : Type 0 where
  pub perform : O → StatusOr R
  pub analyze : R → StatusOr B
  pub elapsed : ℕ

-- The parts of the session spec that the stages use; durations in nanoseconds.
pub record Stages : Type 0 where
  pub measuring_period : ℕ
  pub testing_stage_duration : ℕ
  pub convergence_deadline : ℕ
  -- the deadline in seconds, as absl::StrFormat() writes it with %.2f
  pub deadline_seconds : String

pub record SessionOutput (B : Type 0) : Type 0 where
  pub adjusting_stage_results : List B
  pub testing_stage_result : B

module _ {C O B : Type 0} (controller : StepController C O B) where
  open controller use {is_converged, is_doomed}

  -- The condition of the do-while loop.
  abbrev pub goes_on : C → Bool
  goes_on c = not (is_converged c) && (elim (is_doomed c) [ none ↦ true | some reason ↦ false ])

  -- What a round of the adjusting stage leads to: the loop ends, or the next round follows.
  unfoldable pub after_round :
      Stages
      → ℕ
      → List B
      → StatusOr (B × C)
      → (C → List B → Option (StatusOr (C × List B)))
      → Option (StatusOr (C × List B))
  after_round stages elapsed results (error e) next = some (error e)
  after_round stages elapsed results (ok (result, c)) next =
      let results' = results ++ (result ∷ []) in
      let rest = next c results' in
      if ltb stages.convergence_deadline elapsed
      then some (
          fail_with deadline_exceeded (
            str_cat (
              "Failed to converge before deadline of " ∷ stages.deadline_seconds ∷ " seconds."
              ∷ [])))
      else (if goes_on c then rest else some (ok (c, results')))

-- The session's status, from the doom reason and the benchmark of the testing stage, which is not
-- sent to the service if there is a reason.
unfoldable pub output_of :
    {B C : Type 0} → List B → Option String → StatusOr (B × C) → StatusOr (SessionOutput B)
output_of results (some reason) final =
    fail_with aborted
      (str_cat ("Step controller determined that it can never converge: " ∷ reason ∷ []))
output_of results none (error e) = error e
output_of results none (ok (result, c)) =
    ok (record { adjusting_stage_results = results; testing_stage_result = result })

module _ {C O R B : Type 0} (controller : StepController C O B) (set_duration : ℕ → O → O) where
  open controller use {current_options, update_and_recompute, is_doomed}

  -- PerformAndAnalyzeNighthawkBenchmark()
  unfoldable pub perform_and_analyze : Round O R B → ℕ → C → StatusOr (B × C)
  perform_and_analyze round duration c = do
    options ← current_options c
    response ← round.perform (set_duration duration options)
    result ← round.analyze response
    ok (result, update_and_recompute result c)

  -- The do-while loop of the adjusting stage over the given rounds; `none` if they run out.
  unfoldable pub adjusting_stage :
      Stages → List (Round O R B) → C → List B → Option (StatusOr (C × List B))
  unfolding perform_and_analyze after_round
  adjusting_stage stages [] c results = none
  adjusting_stage stages (round ∷ rounds) c results =
      after_round controller stages round.elapsed results
        (perform_and_analyze round stages.measuring_period c) (adjusting_stage stages rounds)

  -- From the end of the adjusting stage on.
  unfoldable pub testing_stage :
      Stages → Round O R B → StatusOr (C × List B) → StatusOr (SessionOutput B)
  unfolding perform_and_analyze output_of
  testing_stage stages final (error e) = error e
  testing_stage stages final (ok (c, results)) =
      output_of results (is_doomed c) (perform_and_analyze final stages.testing_stage_duration c)

  -- PerformAdaptiveLoadSession(), for a spec that has passed the checks.
  unfoldable pub perform_session :
      Stages → List (Round O R B) → Round O R B → C → Option (StatusOr (SessionOutput B))
  unfolding adjusting_stage testing_stage
  perform_session stages rounds final c = elim (adjusting_stage stages rounds c []) [
    | none ↦ none
    | some adjusted ↦ some (testing_stage stages final adjusted)
  ]
