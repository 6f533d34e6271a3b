-- ===== src/AdaptiveLoad/SessionSpec/Checks.antt =====
-- CheckSessionSpec() of session_spec_proto_helper_impl.cc.
use nighthawk.Base.{
  ℕ, Bool, true, false, List, [], ◌∷◌, ◌++◌, Option, none, some, String, ◌≡◌, ◌↔◌, refl, All, arith,
  subst, sym, if◌then◌else◌,
}
use mathlib.Core.Option.{some-injective}
use nighthawk.Base.Status.{StatusOr, ok, error}
use nighthawk.AdaptiveLoad.MetricsEvaluator.{MetricSpec}
use nighthawk.AdaptiveLoad.SessionSpec.Offers.{
  iff_trans, both, IsOk, IsListed, IsSupported, All-iff, All-map-append, known_plugins-IsSupported,
}
use nighthawk.AdaptiveLoad.SessionSpec.{
  MetricSpecWithThreshold, PluginConfig, SessionSpec, Loader, PluginTable, supported_metrics,
  contains, error_of, metric_errors, duration_errors, validation_errors, status_of, plugin_errors,
  scoring_errors, all_metric_specs, all_metric_errors, known_plugins, check_session_spec,
}

append-eq-nil : (xs ys : List String) → (xs ++ ys ≡ []) ↔ ((xs ≡ []) × (ys ≡ []))
append-eq-nil [] ys = (λ h. (refl, h), λ h. h.1)
append-eq-nil (x ∷ xs) ys = ground arith

-- Two lists of errors are both empty.
no_errors :
    {A B : Type 0} {xs ys : List String} → (xs ≡ []) ↔ A → (ys ≡ []) ↔ B → (xs ++ ys ≡ []) ↔ (A × B)
no_errors {xs = xs} {ys = ys} f g = iff_trans (append-eq-nil xs ys) (both f g)

error_of-IsOk : {A : Type 0} (text : String) (s : StatusOr A) → (error_of text s ≡ []) ↔ IsOk s
error_of-IsOk text (ok a) = (λ h. (a, refl), λ h. refl)
error_of-IsOk text (error e) = ground arith

if-nil : (b : Bool) (e : String) → ((if b then [] else (e ∷ [])) ≡ []) ↔ (b ≡ true)
if-nil true e = (λ h. refl, λ h. refl)
if-nil false e = ground arith

metric_errors-nil :
    (names : String) (m : MetricSpec) (supported : Option (List String))
    → (metric_errors names m supported ≡ []) ↔ (
        (metrics : List String) × (supported ≡ some metrics)
        × (contains metrics m.metric_name ≡ true))
unfolding metric_errors
metric_errors-nil names m none = ground arith
metric_errors-nil names m (some metrics) =
    let supports = if-nil (contains metrics m.metric_name) _ in
    (
      λ h. (metrics, refl, supports.0 h),
      λ (others, e, h).
          supports.1 (subst (λ x. contains x m.metric_name ≡ true) (sym (some-injective _ _ e)) h),
    )

all_metric_errors-nil :
    (names : String) (table : PluginTable) (ms : List MetricSpec)
    → (all_metric_errors names table ms ≡ []) ↔ All (IsListed table) ms
unfolding all_metric_errors
all_metric_errors-nil names table [] = (λ h. tt, λ h. refl)
all_metric_errors-nil names table (m ∷ ms) =
    no_errors (metric_errors-nil names m (supported_metrics table m.metrics_plugin_name))
      (all_metric_errors-nil names table ms)

duration_errors-nil : (d : Option ℕ) → (duration_errors d ≡ []) ↔ (d ≡ none)
unfolding duration_errors
duration_errors-nil none = (λ h. refl, λ h. refl)
duration_errors-nil (some d) = ground arith

validation_errors-nil : (e : Option String) → (validation_errors e ≡ []) ↔ (e ≡ none)
unfolding validation_errors
validation_errors-nil none = (λ h. refl, λ h. refl)
validation_errors-nil (some e) = ground arith

status_of-ok : (errors : List String) → (status_of errors ≡ ok tt) ↔ (errors ≡ [])
unfolding status_of
status_of-ok [] = (λ h. refl, λ h. refl)
status_of-ok (e ∷ errors) = ground arith

-- The last factor, given the third one.
last_under :
    {A B C D E F G : Type 0}
    → (C → F ↔ G)
    → (A × (B × (C × (D × (E × F))))) ↔ (A × (B × (C × (D × (E × G)))))
last_under f = (
  λ (a, (b, (c, (d, (e, x))))). (a, (b, (c, (d, (e, (f c).0 x))))),
  λ (a, (b, (c, (d, (e, x))))). (a, (b, (c, (d, (e, (f c).1 x))))),
)

module _ {D F K T C : Type 0} (loader : Loader D F K T C) where
  open loader use {validate, load_metrics_plugin, load_step_controller, load_scoring_function}

  plugin_errors-nil :
      (cs : List (PluginConfig K))
      → (plugin_errors loader cs ≡ []) ↔ All (λ c. IsOk (load_metrics_plugin c)) cs
  unfolding plugin_errors
  plugin_errors-nil [] = (λ h. tt, λ h. refl)
  plugin_errors-nil (c ∷ cs) =
      no_errors (error_of-IsOk _ (load_metrics_plugin c)) (plugin_errors-nil cs)

  scoring_errors-nil :
      (ts : List (MetricSpecWithThreshold D F))
      → (scoring_errors loader ts ≡ [])
        ↔ All (λ t. IsOk (load_scoring_function t.scoring_function)) ts
  unfolding scoring_errors
  scoring_errors-nil [] = (λ h. tt, λ h. refl)
  scoring_errors-nil (t ∷ ts) =
      no_errors (error_of-IsOk _ (load_scoring_function t.scoring_function)) (scoring_errors-nil ts)

  -- A spec passes the check exactly when its traffic template has no duration, the message
  -- validates, every metrics plugin, the step controller and every scoring function load, and every
  -- metric with or without a threshold is among those of the plugin that it names. This is the last
  -- configured one of the name, or the builtin one if it has its name and none is configured with it.
  pub check_session_spec_lem :
      (s : SessionSpec D F K T C)
      → (check_session_spec loader s ≡ ok tt) ↔ (
          (s.template_duration ≡ none)
          × ((validate s ≡ none)
              × (All (λ c. IsOk (load_metrics_plugin c)) s.metrics_plugin_configs
                  × (IsOk (load_step_controller s.step_controller_config s.traffic_template)
                      × (All
                            (λ t. IsOk (load_scoring_function t.scoring_function))
                            s.metric_thresholds
                          × (All
                                (λ t. IsSupported loader s.metrics_plugin_configs t.metric_spec)
                                s.metric_thresholds
                              × All
                                  (IsSupported loader s.metrics_plugin_configs)
                                  s.informational_metric_specs))))))
  unfolding check_session_spec
  check_session_spec_lem s =
      iff_trans
        (iff_trans (status_of-ok _) (
          no_errors (duration_errors-nil s.template_duration) (
            no_errors (validation_errors-nil (validate s)) (
              no_errors (plugin_errors-nil s.metrics_plugin_configs) (
                no_errors
                  (error_of-IsOk _
                    (load_step_controller s.step_controller_config s.traffic_template))
                  (no_errors (scoring_errors-nil s.metric_thresholds)
                    (all_metric_errors-nil _ (known_plugins loader s) (all_metric_specs s))))))))
        (last_under (λ loads.
          iff_trans (All-iff (all_metric_specs s) (λ m. known_plugins-IsSupported loader s m loads))
            (All-map-append (IsSupported loader s.metrics_plugin_configs) (λ t. t.metric_spec)
              s.metric_thresholds s.informational_metric_specs)))
