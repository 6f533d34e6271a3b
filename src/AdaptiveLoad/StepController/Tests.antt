-- ===== src/AdaptiveLoad/StepController/Tests.antt =====
-- A search over whole loads, where the score 0 stands for a negative one.
use nighthawk.Base.{ℕ, ◌+◌, ◌-◌, ◌*◌, ◌/◌, ◌≡◌, ◌⊎◌, refl, ltb, leb, ◌==◌, ◌&&◌, List, [], ◌∷◌}
use nighthawk.AdaptiveLoad.StepController.{
  Doubles, MetricEvaluation, exponential_search, update_and_recompute, within_thresholds,
}
use nighthawk.AdaptiveLoad.StepController.Bracket.{
  try_loads, IsKnown, IsDoomed, new_trial, search_bracket,
}

abbrev whole : Doubles ℕ
whole = record {
  times = λ a b. a * b;
  midpoint = λ a b. (a + b) / 2;
  minus = λ a b. a - b;
  at_most = leb;
  positive = ltb 0;
  negative = λ a. a == 0;
  within_one_percent = λ a b. ltb (a * 100) (b * 101) && ltb (b * 99) (a * 100);
  two = 2;
  one = 1;
  minus_one = 0;
}

abbrev passing : List (MetricEvaluation ℕ)
passing =
    record { weight = 1; threshold_score = 1 } ∷ record { weight = 0; threshold_score = 0 } ∷ []

abbrev failing : List (MetricEvaluation ℕ)
failing = record { weight = 1; threshold_score = 0 } ∷ []

-- The load 100 passes, and everything above it fails.
abbrev benchmarks : List (List (MetricEvaluation ℕ))
benchmarks = passing ∷ failing ∷ failing ∷ failing ∷ failing ∷ failing ∷ failing ∷ failing ∷ []

loads_tried :
    (try_loads whole benchmarks (new_trial whole 2 100)).failed
    ≡ 101 ∷ 103 ∷ 106 ∷ 112 ∷ 125 ∷ 150 ∷ 200 ∷ []
unfolding try_loads exponential_search update_and_recompute within_thresholds
loads_tried = refl

search_bracket_example :
    IsKnown whole (try_loads whole benchmarks (new_trial whole 2 100))
    ⊎ IsDoomed whole (try_loads whole benchmarks (new_trial whole 2 100))
search_bracket_example = search_bracket whole 2 100 benchmarks
