-- ===== src/AdaptiveLoad/Session/Tests.antt =====
-- Runs of a session with a controller that raises a load until it is too much.
use nighthawk.Base.{ℕ, ◌+◌, true, [], ◌∷◌, none, some, ◌≡◌, refl, ltb, arith}
use nighthawk.Base.Status.{StatusOr, ok}
use nighthawk.AdaptiveLoad.Session.{
  StepController, Round, Stages, SessionOutput, perform_and_analyze, perform_session,
}
use nighthawk.AdaptiveLoad.Session.Outcome.{Adjusted, session_converged}
use nighthawk.AdaptiveLoad.Session.Ends.{session_ends}

-- The state is the load, and it has converged past 20; the options are the load and the duration.
abbrev climbing : StepController ℕ (ℕ × ℕ) ℕ
climbing = record {
  current_options = λ load. ok (load, 0);
  update_and_recompute = λ b load. load + b;
  is_converged = λ load. ltb 20 load;
  is_doomed = λ load. none;
}

abbrev with_duration : ℕ → ℕ × ℕ → ℕ × ℕ
with_duration duration o = (o.0, duration)

abbrev round_after : ℕ → Round (ℕ × ℕ) ℕ ℕ
round_after elapsed = record {
  perform = λ o. ok (o.0 + o.1);
  analyze = λ r. ok r;
  elapsed = elapsed;
}

abbrev stages : Stages
stages = record {
  measuring_period = 3;
  testing_stage_duration = 100;
  convergence_deadline = 50;
  deadline_seconds = "0.00";
}

abbrev output : SessionOutput ℕ
output = record { adjusting_stage_results = 8 ∷ 16 ∷ []; testing_stage_result = 129 }

session_converged_example :
    (end : ℕ) × Adjusted climbing with_duration stages
      (round_after 10 ∷ round_after 20 ∷ [])
      5
      (8 ∷ 16 ∷ [])
      end
    × (ltb 20 end ≡ true)
    × (climbing.is_doomed end ≡ none)
    × ((after : ℕ) × (perform_and_analyze climbing with_duration (round_after 99) 100 end
          ≡ ok (129, after)))
unfolding perform_session
session_converged_example =
    session_converged climbing with_duration stages (round_after 10 ∷ round_after 20 ∷ [])
      (round_after 99) 5 output refl

session_ends_example :
    (r : StatusOr (SessionOutput ℕ)) × (perform_session climbing with_duration stages
        (round_after 10 ∷ round_after 51 ∷ [])
        (round_after 99)
        0
      ≡ some r)
session_ends_example =
    session_ends climbing with_duration stages (round_after 10 ∷ []) [] (round_after 51)
      (round_after 99) 0 (omega arith)
