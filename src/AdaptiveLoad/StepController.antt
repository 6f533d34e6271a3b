-- ===== src/AdaptiveLoad/StepController.antt =====
-- ExponentialSearchStepController, source/adaptive_load/step_controller_impl.{h,cc}, and the scoring
-- functions, source/adaptive_load/scoring_function_impl.{h,cc}. Loads, weights and scores are
-- doubles; their arithmetic is a parameter here.
pub mod Bracket
mod Tests
use nighthawk.Base.{
  ℕ, Bool, true, false, not, ◌&&◌, if◌then◌else◌, List, [], ◌∷◌, Option, none, some, String,
}

-- The operations on doubles that the code uses.
pub record Doubles (D : Type 0) : Type 0 where
  pub times : D → D → D
  -- (a + b) / 2
  pub midpoint : D → D → D
  pub minus : D → D → D
  pub at_most : D → D → Bool
  -- comparisons with 0.0
  pub positive : D → Bool
  pub negative : D → Bool
  -- abs(a / b - 1.0) < 0.01
  pub within_one_percent : D → D → Bool
  pub two : D
  pub one : D
  pub minus_one : D

pub record MetricEvaluation (D : Type 0) : Type 0 where
  pub weight : D
  pub threshold_score : D

pub record ExponentialSearch (D : Type 0) : Type 0 where
  pub exponential_factor : D
  pub is_range_finding_phase : Bool
  -- a NaN until the first increase
  pub previous_load_value : Option D
  pub current_load_value : D
  -- NaNs too until the binary search sets them, and not read before that
  pub bottom_load_value : D
  pub top_load_value : D
  pub doom_reason : Option String

-- BinaryScoringFunction, without a threshold where none is configured.
pub record BinaryScoring (D : Type 0) : Type 0 where
  pub upper_threshold : Option D
  pub lower_threshold : Option D

pub record LinearScoring (D : Type 0) : Type 0 where
  pub threshold : D
  pub scaling_constant : D

module _ {D : Type 0} (doubles : Doubles D) where
  open doubles use {
    times, midpoint, minus, at_most, positive, negative, within_one_percent, two, one, minus_one,
  }

  -- BinaryScoringFunction::EvaluateMetric(); a missing threshold is infinite.
  unfoldable pub binary_score : BinaryScoring D → D → D
  binary_score f value =
      let below : Bool = elim f.upper_threshold [ none ↦ true | some u ↦ at_most value u ] in
      let above : Bool = elim f.lower_threshold [ none ↦ true | some l ↦ at_most l value ] in
      if below && above then one else minus_one

  -- LinearScoringFunction::EvaluateMetric()
  unfoldable pub linear_score : LinearScoring D → D → D
  linear_score f value = times f.scaling_constant (minus f.threshold value)

  -- TotalScore() > 0: no metric that counts is outside its threshold.
  unfoldable pub within_thresholds : List (MetricEvaluation D) → Bool
  within_thresholds [] = true
  within_thresholds (e ∷ es) =
      if positive e.weight && negative e.threshold_score then false else within_thresholds es

  -- The constructor, from the configured factor and initial value.
  unfoldable pub exponential_search : D → D → ExponentialSearch D
  exponential_search factor initial_value = record {
    exponential_factor = if positive factor then factor else two;
    is_range_finding_phase = true;
    previous_load_value = none;
    current_load_value = initial_value;
    bottom_load_value = initial_value;
    top_load_value = initial_value;
    doom_reason = none;
  }

  unfoldable pub is_converged : ExponentialSearch D → Bool
  is_converged c =
      (elim c.doom_reason [ none ↦ true | some reason ↦ false ])
      && not c.is_range_finding_phase
      && (elim c.previous_load_value [
        | none ↦ false
        | some previous ↦ within_one_percent c.current_load_value previous
      ])

  -- IsDoomed(), with the reason.
  abbrev pub is_doomed : ExponentialSearch D → Option String
  is_doomed c = c.doom_reason

  unfoldable pub iterate_range_finding : Bool → ExponentialSearch D → ExponentialSearch D
  iterate_range_finding true c = record c {
    previous_load_value = some c.current_load_value;
    current_load_value = times c.current_load_value c.exponential_factor;
  }
  iterate_range_finding false c = elim c.previous_load_value [
    | none ↦ record c {
      doom_reason =
          some
            "ExponentialSearchStepController cannot continue if the metrics values already exceed metric thresholds with the initial load. Check the initial load value in the ExponentialSearchStepControllerConfig, requested metrics, and thresholds.";
    }
    | some previous ↦ record c {
      is_range_finding_phase = false;
      bottom_load_value = previous;
      top_load_value = c.current_load_value;
      previous_load_value = some c.current_load_value;
      current_load_value = midpoint previous c.current_load_value;
    }
  ]

  unfoldable pub iterate_binary_search : Bool → ExponentialSearch D → ExponentialSearch D
  iterate_binary_search within c =
      let bottom = if within then c.current_load_value else c.bottom_load_value in
      let top = if within then c.top_load_value else c.current_load_value in
      record c {
        bottom_load_value = bottom;
        top_load_value = top;
        previous_load_value = some c.current_load_value;
        current_load_value = midpoint bottom top;
      }

  unfoldable pub update_and_recompute :
      List (MetricEvaluation D) → ExponentialSearch D → ExponentialSearch D
  unfolding iterate_range_finding iterate_binary_search
  update_and_recompute evaluations c =
      let within = within_thresholds evaluations in
      if c.is_range_finding_phase
      then iterate_range_finding within c
      else iterate_binary_search within c
