-- ===== src/AdaptiveLoad/SessionSpec/Defaults.antt =====
-- SetSessionSpecDefaults() of session_spec_proto_helper_impl.cc.
use text.Mathlib.Text.{◌==◌ as str_eq}
use nighthawk.Base.{
  true, false, List, [], ◌∷◌, map, Option, none, some, ◌≡◌, refl, ap₂, All, arith, Bool-cases, inl,
  inr,
}
use nighthawk.AdaptiveLoad.MetricsEvaluator.{MetricSpec}
use nighthawk.AdaptiveLoad.SessionSpec.{
  MetricSpecWithThreshold, SessionSpec, or_default, set_plugin_name, set_threshold_defaults,
  set_session_spec_defaults,
}

abbrev pub HasPlugin : MetricSpec → Type 0
HasPlugin m = str_eq m.metrics_plugin_name "" ≡ false

abbrev pub IsGiven : {A : Type 0} → Option A → Type 0
IsGiven {A = A} o = (a : A) × (o ≡ some a)

-- A spec in which nothing is left to the defaults.
pub record IsComplete {D F K T C : Type 0} (s : SessionSpec D F K T C) : Type 0 where
  pub open_loop : IsGiven s.template_open_loop
  pub measuring : IsGiven s.measuring_period
  pub deadline : IsGiven s.convergence_deadline
  pub testing : IsGiven s.testing_stage_duration
  pub thresholds : All (λ t. HasPlugin t.metric_spec × IsGiven t.weight) s.metric_thresholds
  pub informational : All HasPlugin s.informational_metric_specs

or_default-IsGiven : {A : Type 0} (value : A) (o : Option A) → IsGiven (or_default value o)
or_default-IsGiven value none = (value, refl)
or_default-IsGiven value (some a) = (a, refl)

or_default_set : {A : Type 0} (value : A) (o : Option A) → IsGiven o → or_default value o ≡ o
or_default_set value none set = ground (arith, set.1)
or_default_set value (some a) set = refl

set_plugin_name-HasPlugin : (m : MetricSpec) → HasPlugin (set_plugin_name m)
unfolding set_plugin_name
set_plugin_name-HasPlugin m = elim (Bool-cases (str_eq m.metrics_plugin_name "")) [
  | inl empty ↦ rw empty
  | inr named ↦ rw named named
]

set_plugin_name_set : (m : MetricSpec) → HasPlugin m → set_plugin_name m ≡ m
unfolding set_plugin_name
set_plugin_name_set m named = rw named

map-All :
    {A : Type 0} (P : A → Type 0) (f : A → A) (xs : List A) → ((x : A) → P (f x)) → All P (map f xs)
map-All P f [] h = tt
map-All P f (x ∷ xs) h = (h x, map-All P f xs h)

map_fixed :
    {A : Type 0} (P : A → Type 0) (f : A → A) (xs : List A)
    → ((x : A) → P x → f x ≡ x)
    → All P xs
    → map f xs ≡ xs
map_fixed P f [] h all = refl
map_fixed P f (x ∷ xs) h all = ap₂ (λ y ys. y ∷ ys) (h x all.0) (map_fixed P f xs h all.1)

set_threshold_defaults_set :
    {D F : Type 0} (one : D) (t : MetricSpecWithThreshold D F)
    → HasPlugin t.metric_spec × IsGiven t.weight
    → set_threshold_defaults one t ≡ t
unfolding set_threshold_defaults
set_threshold_defaults_set one t (named, weighted) =
    ap₂ (λ m w. record t { metric_spec = m; weight = w }) (set_plugin_name_set t.metric_spec named)
      (or_default_set one t.weight weighted)

module _ {D F K T C : Type 0} (one : D) where
  set_session_spec_defaults-IsComplete :
      (s : SessionSpec D F K T C) → IsComplete (set_session_spec_defaults one s)
  unfolding set_session_spec_defaults
  set_session_spec_defaults-IsComplete s = record {
    open_loop = or_default-IsGiven true s.template_open_loop;
    measuring = or_default-IsGiven 10000000000 s.measuring_period;
    deadline = or_default-IsGiven 300000000000 s.convergence_deadline;
    testing = or_default-IsGiven 30000000000 s.testing_stage_duration;
    thresholds =
        map-All _ (set_threshold_defaults one) s.metric_thresholds
          (λ t. (set_plugin_name-HasPlugin t.metric_spec, or_default-IsGiven one t.weight));
    informational =
        map-All _ set_plugin_name s.informational_metric_specs set_plugin_name-HasPlugin;
  }

  complete_unchanged :
      (s : SessionSpec D F K T C) → IsComplete s → set_session_spec_defaults one s ≡ s
  unfolding set_session_spec_defaults
  complete_unchanged s c = rw (
    or_default_set true s.template_open_loop c.open_loop,
    or_default_set 10000000000 s.measuring_period c.measuring,
    or_default_set 300000000000 s.convergence_deadline c.deadline,
    or_default_set 30000000000 s.testing_stage_duration c.testing,
    map_fixed _ (set_threshold_defaults one) s.metric_thresholds (set_threshold_defaults_set one)
        c.thresholds,
    map_fixed _ set_plugin_name s.informational_metric_specs set_plugin_name_set c.informational,
  )

  -- A spec with defaults has everything set: the open loop flag, the three durations, the weight of
  -- each threshold and the plugin name of each metric. A spec that has all of that is not changed;
  -- so setting the defaults again changes nothing.
  pub set_session_spec_defaults_lem :
      (s : SessionSpec D F K T C)
      → IsComplete (set_session_spec_defaults one s)
        × (IsComplete s → set_session_spec_defaults one s ≡ s)
        × (set_session_spec_defaults one (set_session_spec_defaults one s)
            ≡ set_session_spec_defaults one s)
  set_session_spec_defaults_lem s = (
    set_session_spec_defaults-IsComplete s,
    complete_unchanged s,
    complete_unchanged (set_session_spec_defaults one s) (set_session_spec_defaults-IsComplete s),
  )
