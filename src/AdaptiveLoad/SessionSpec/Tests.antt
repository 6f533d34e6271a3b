-- ===== src/AdaptiveLoad/SessionSpec/Tests.antt =====
-- A spec with one threshold on a metric of the builtin plugin.
use nighthawk.Base.{ℕ, [], ◌∷◌, none, some, ◌≡◌, ◌↔◌, refl, All}
use nighthawk.Base.Status.{ok}
use nighthawk.AdaptiveLoad.SessionSpec.{
  SessionSpec, Loader, set_session_spec_defaults, check_session_spec,
}
use nighthawk.AdaptiveLoad.SessionSpec.Offers.{IsOk, IsSupported}
use nighthawk.AdaptiveLoad.SessionSpec.Checks.{check_session_spec_lem}

abbrev spec : SessionSpec ℕ ℕ ℕ ℕ ℕ
spec = record {
  traffic_template = 0;
  template_open_loop = none;
  template_duration = none;
  measuring_period = some 5;
  convergence_deadline = none;
  testing_stage_duration = none;
  metrics_plugin_configs = [];
  step_controller_config = 0;
  metric_thresholds =
      record {
        metric_spec = record { metrics_plugin_name = ""; metric_name = "send-rate" };
        weight = none;
        scoring_function = 0;
      }
      ∷ [];
  informational_metric_specs = [];
}

abbrev loader : Loader ℕ ℕ ℕ ℕ ℕ
loader = record {
  validate = λ s. none;
  load_metrics_plugin = λ c. ok [];
  load_step_controller = λ c t. ok tt;
  load_scoring_function = λ f. ok tt;
  builtin = "send-rate" ∷ "success-rate" ∷ [];
}

abbrev complete : SessionSpec ℕ ℕ ℕ ℕ ℕ
complete = set_session_spec_defaults 1 spec

passes : check_session_spec loader complete ≡ ok tt
unfolding check_session_spec set_session_spec_defaults
passes = refl

check_session_spec_lem_example : (check_session_spec loader spec ≡ ok tt) ↔ (
    (spec.template_duration ≡ none)
    × ((loader.validate spec ≡ none)
        × (All (λ c. IsOk (loader.load_metrics_plugin c)) spec.metrics_plugin_configs
            × (IsOk (loader.load_step_controller 0 0)
                × (All
                      (λ t. IsOk (loader.load_scoring_function t.scoring_function))
                      spec.metric_thresholds
                    × (All
                          (λ t. IsSupported loader spec.metrics_plugin_configs t.metric_spec)
                          spec.metric_thresholds
                        × All
                            (IsSupported loader spec.metrics_plugin_configs)
                            spec.informational_metric_specs))))))
check_session_spec_lem_example = check_session_spec_lem loader spec
