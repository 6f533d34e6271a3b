-- ===== src/AdaptiveLoad/SessionSpec.antt =====
-- AdaptiveLoadSessionSpecProtoHelperImpl, source/adaptive_load/session_spec_proto_helper_impl.cc.
-- Loading a plugin and the generated validation of the message are parameters; durations are
-- nanoseconds.
pub mod Defaults
pub mod Offers
pub mod Checks
mod Tests
use text.Mathlib.Text.{◌==◌ as str_eq}
use nighthawk.Base.{
  ℕ, Bool, true, false, ◌||◌, if◌then◌else◌, List, [], ◌∷◌, ◌++◌, map, Option, none, some, String,
}
use nighthawk.Base.Text.{str_cat, str_join}
use nighthawk.Base.Status.{StatusOr, ok, error, invalid_argument, fail_with}
use nighthawk.AdaptiveLoad.MetricsEvaluator.{MetricSpec}

-- A threshold for a metric, with the configuration `F` of its scoring function.
pub record MetricSpecWithThreshold (D F : Type 0) : Type 0 where
  pub metric_spec : MetricSpec
  pub weight : Option D
  pub scoring_function : F

-- TypedExtensionConfig, with a configuration `K`.
pub record PluginConfig (K : Type 0) : Type 0 where
  pub name : String
  pub typed_config : K

-- The fields of AdaptiveLoadSessionSpec that are read here, with `T` for what else the Nighthawk
-- traffic template holds and `C` for the step controller's configuration.
pub record SessionSpec (D F K T C : Type 0) : Type 0 where
  pub traffic_template : T
  pub template_open_loop : Option Bool
  pub template_duration : Option ℕ
  pub measuring_period : Option ℕ
  pub convergence_deadline : Option ℕ
  pub testing_stage_duration : Option ℕ
  pub metrics_plugin_configs : List (PluginConfig K)
  pub step_controller_config : C
  pub metric_thresholds : List (MetricSpecWithThreshold D F)
  pub informational_metric_specs : List MetricSpec

abbrev pub or_default : {A : Type 0} → A → Option A → Option A
or_default value none = some value
or_default value (some a) = some a

unfoldable pub set_plugin_name : MetricSpec → MetricSpec
set_plugin_name m =
    if str_eq m.metrics_plugin_name ""
    then record m { metrics_plugin_name = "nighthawk.builtin" }
    else m

unfoldable pub set_threshold_defaults :
    {D F : Type 0} → D → MetricSpecWithThreshold D F → MetricSpecWithThreshold D F
unfolding set_plugin_name
set_threshold_defaults one t = record t {
  metric_spec = set_plugin_name t.metric_spec;
  weight = or_default one t.weight;
}

-- SetSessionSpecDefaults()
unfoldable pub set_session_spec_defaults :
    {D F K T C : Type 0} → D → SessionSpec D F K T C → SessionSpec D F K T C
unfolding set_threshold_defaults set_plugin_name
set_session_spec_defaults one s = record s {
  template_open_loop = or_default true s.template_open_loop;
  measuring_period = or_default 10000000000 s.measuring_period;
  convergence_deadline = or_default 300000000000 s.convergence_deadline;
  testing_stage_duration = or_default 30000000000 s.testing_stage_duration;
  metric_thresholds = map (set_threshold_defaults one) s.metric_thresholds;
  informational_metric_specs = map set_plugin_name s.informational_metric_specs;
}

-- plugin_from_name: what each plugin supports, the entry that counts first.
abbrev pub PluginTable : Type 0
PluginTable = List (String × List String)

unfoldable pub supported_metrics : PluginTable → String → Option (List String)
supported_metrics [] name = none
supported_metrics ((n, metrics) ∷ table) name =
    let rest = supported_metrics table name in if str_eq n name then some metrics else rest

abbrev pub contains : List String → String → Bool
contains [] name = false
contains (n ∷ names) name = str_eq n name || contains names name

-- The error that a failed call adds.
abbrev pub error_of : {A : Type 0} → String → StatusOr A → List String
error_of text (ok a) = []
error_of text (error e) = str_cat (text ∷ e.message ∷ []) ∷ []

abbrev add_plugin : String → StatusOr (List String) → PluginTable → PluginTable
add_plugin name (ok metrics) table = (name, metrics) ∷ table
add_plugin name (error e) table = table

-- The check of one metric, whose plugin supports the given metrics if it is known.
unfoldable pub metric_errors : String → MetricSpec → Option (List String) → List String
metric_errors plugin_names m (some metrics) =
    if contains metrics m.metric_name
    then []
    else (str_cat (
          "Metric named '"
          ∷ m.metric_name
          ∷ "' not implemented by plugin '"
          ∷ m.metrics_plugin_name
          ∷ "'. Metrics implemented: "
          ∷ str_join metrics ", "
          ∷ "."
          ∷ [])
        ∷ [])
metric_errors plugin_names m none =
    str_cat (
      "MetricSpec referred to nonexistent metrics_plugin_name '" ∷ m.metrics_plugin_name
      ∷ "'. You must declare the plugin in metrics_plugin_configs or use plugin "
      ∷ "'nighthawk.builtin'. Available plugins: " ∷ plugin_names ∷ "." ∷ [])
    ∷ []

unfoldable pub duration_errors : Option ℕ → List String
duration_errors none = []
duration_errors (some d) =
    str_cat (
      "nighthawk_traffic_template should not have |duration| set. Set |measuring_period| "
      ∷ "and |testing_stage_duration| in the AdaptiveLoadSessionSpec proto instead." ∷ [])
    ∷ []

unfoldable pub validation_errors : Option String → List String
validation_errors none = []
validation_errors (some text) =
    str_cat ("the AdaptiveLoadSessionSpec doesn't validate: " ∷ text ∷ []) ∷ []

unfoldable pub status_of : List String → StatusOr (Unit {0})
status_of [] = ok tt
status_of (e ∷ errors) = fail_with invalid_argument (str_join (e ∷ errors) "\n")

-- LoadMetricsPlugin() gives what the plugin supports, and the other two calls only whether they
-- succeed; `builtin` is what the builtin plugin supports.
pub record Loader (D F K T C : Type 0) : Type 0 where
  pub validate : SessionSpec D F K T C → Option String
  pub load_metrics_plugin : PluginConfig K → StatusOr (List String)
  pub load_step_controller : C → T → StatusOr (Unit {0})
  pub load_scoring_function : F → StatusOr (Unit {0})
  pub builtin : List String

module _ {D F K T C : Type 0} (loader : Loader D F K T C) where
  open loader use {
    validate, load_metrics_plugin, load_step_controller, load_scoring_function, builtin,
  }

  unfoldable pub plugin_table : List (PluginConfig K) → PluginTable → PluginTable
  plugin_table [] table = table
  plugin_table (c ∷ cs) table = plugin_table cs (add_plugin c.name (load_metrics_plugin c) table)

  unfoldable pub plugin_errors : List (PluginConfig K) → List String
  plugin_errors [] = []
  plugin_errors (c ∷ cs) =
      error_of "Failed to load MetricsPlugin: " (load_metrics_plugin c) ++ plugin_errors cs

  unfoldable pub scoring_errors : List (MetricSpecWithThreshold D F) → List String
  scoring_errors [] = []
  scoring_errors (t ∷ ts) =
      error_of "Failed to load ScoringFunction plugin: " (load_scoring_function t.scoring_function)
      ++ scoring_errors ts

abbrev pub all_metric_specs : {D F K T C : Type 0} → SessionSpec D F K T C → List MetricSpec
all_metric_specs s = map (λ t. t.metric_spec) s.metric_thresholds ++ s.informational_metric_specs

unfoldable pub all_metric_errors : String → PluginTable → List MetricSpec → List String
unfolding metric_errors supported_metrics
all_metric_errors plugin_names table [] = []
all_metric_errors plugin_names table (m ∷ ms) =
    metric_errors plugin_names m (supported_metrics table m.metrics_plugin_name)
    ++ all_metric_errors plugin_names table ms

module _ {D F K T C : Type 0} (loader : Loader D F K T C) where
  open loader use {
    validate, load_metrics_plugin, load_step_controller, load_scoring_function, builtin,
  }

  -- All plugins that the spec's metrics may use.
  unfoldable pub known_plugins : SessionSpec D F K T C → PluginTable
  unfolding plugin_table
  known_plugins s =
      plugin_table loader s.metrics_plugin_configs (("nighthawk.builtin", builtin) ∷ [])

  -- CheckSessionSpec(), with the errors in the order in which they are found.
  unfoldable pub check_session_spec : SessionSpec D F K T C → StatusOr (Unit {0})
  unfolding status_of duration_errors validation_errors plugin_errors scoring_errors
      all_metric_errors known_plugins
  check_session_spec s =
      let plugin_names =
        str_join ("nighthawk.builtin" ∷ map (λ c. c.name) s.metrics_plugin_configs) ", " in
      status_of (
        duration_errors s.template_duration
        ++ (validation_errors (validate s)
            ++ (plugin_errors loader s.metrics_plugin_configs
                ++ (error_of "Failed to load StepController plugin: "
                      (load_step_controller s.step_controller_config s.traffic_template)
                    ++ (scoring_errors loader s.metric_thresholds
                        ++ all_metric_errors plugin_names (known_plugins s)
                            (all_metric_specs s))))))
