-- ===== src/AdaptiveLoad/SessionSpec/Offers.antt =====
-- Which metrics the plugins of a spec offer: session_spec_proto_helper_impl.cc.
use nighthawk.Base.{
  true, List, [], ◌∷◌, ◌++◌, map, some, String, ◌≡◌, ◌↔◌, ◌≢◌, ◌⊎◌, inl, inr, refl, All, arith,
  Bool-cases, subst, sym, ap, ◌∙◌,
}
use text.Mathlib.Text.{◌==◌ as str_eq}
use text.Mathlib.TextEquality.{eq_iff}
use mathlib.Core.Option.{some-injective}
use nighthawk.Base.Status.{StatusOr, ok, ok-injective}
use nighthawk.AdaptiveLoad.MetricsEvaluator.{MetricSpec}
use nighthawk.AdaptiveLoad.SessionSpec.{
  PluginConfig, SessionSpec, Loader, PluginTable, supported_metrics, contains, known_plugins,
  plugin_table, add_plugin,
}

pub iff_trans : {A B C : Type 0} → A ↔ B → B ↔ C → A ↔ C
iff_trans (f, g) (h, k) = (λ a. h (f a), λ c. g (k c))

pub both : {A B C D : Type 0} → A ↔ B → C ↔ D → (A × C) ↔ (B × D)
both (f, g) (h, k) = (λ (a, c). (f a, h c), λ (b, d). (g b, k d))

abbrev pub IsOk : {A : Type 0} → StatusOr A → Type 0
IsOk {A = A} s = (a : A) × (s ≡ ok a)

-- Membership.
abbrev pub IsIn : String → List String → Type 0
IsIn name [] = ⊥
IsIn name (n ∷ names) = (n ≡ name) ⊎ IsIn name names

-- The plugin that a metric names is in the table, and supports the metric.
abbrev pub IsListed : PluginTable → MetricSpec → Type 0
IsListed table m =
    (metrics : List String) × (supported_metrics table m.metrics_plugin_name ≡ some metrics)
    × (contains metrics m.metric_name ≡ true)

contains-IsIn :
    (names : List String) (name : String) → (contains names name ≡ true) ↔ IsIn name names
contains-IsIn [] name = (λ h. ground (arith, h), λ none_in. absurd none_in)
contains-IsIn (n ∷ names) name = elim (Bool-cases (str_eq n name)) [
  | inl same ↦ (λ h. inl ((eq_iff n name).0 same), λ member. rw same refl)
  | inr different ↦
      let (there, back) = contains-IsIn names name in
      (
        λ h. inr (there (ground (arith, different, h))),
        λ member. elim member [
          | inl e ↦ ground (arith, different, (eq_iff n name).1 e)
          | inr later ↦ rw different (back later)
        ],
      )
]

pub All-iff :
    {A : Type 0} {P Q : A → Type 0} (xs : List A) → ((x : A) → P x ↔ Q x) → All P xs ↔ All Q xs
All-iff [] f = (λ h. tt, λ h. tt)
All-iff (x ∷ xs) f = both (f x) (All-iff xs f)

-- A predicate on the results of a function and on more elements.
pub All-map-append :
    {A B : Type 0} (P : B → Type 0) (f : A → B) (xs : List A) (ys : List B)
    → All P (map f xs ++ ys) ↔ (All (λ x. P (f x)) xs × All P ys)
All-map-append P f [] ys = (λ h. (tt, h), λ h. h.1)
All-map-append P f (x ∷ xs) ys =
    let (apart, together) = All-map-append P f xs ys in
    (
      λ (h, more). let (hs, rest) = apart more in ((h, hs), rest),
      λ ((h, hs), rest). (h, together (hs, rest)),
    )

-- A table with a new entry in front answers with it, or as before.
entry_lem :
    (n name : String) (listed metrics : List String) (table : PluginTable)
    → (supported_metrics ((n, listed) ∷ table) name ≡ some metrics) ↔ (
        ((n ≡ name) × (listed ≡ metrics))
        ⊎ ((n ≢ name) × (supported_metrics table name ≡ some metrics)))
unfolding supported_metrics
entry_lem n name listed metrics table = elim (Bool-cases (str_eq n name)) [
  | inl same ↦
      let e = (eq_iff n name).0 same in
      rw same (
        λ h. inl (e, some-injective _ _ h),
        λ cases. elim cases [ inl (e', h) ↦ ap some h | inr (differs, h) ↦ absurd (differs e) ],
      )
  | inr different ↦
      let differs : n ≢ name = λ e. ground (arith, different, (eq_iff n name).1 e) in
      rw different (
        λ h. inr (differs, h),
        λ cases. elim cases [ inl (e, h) ↦ absurd (differs e) | inr (differs', h) ↦ h ],
      )
]

regroup :
    {X N A B L R : Type 0} → (X ⊎ (N × ((A × L) ⊎ (B × R)))) ↔ (((A × (L × N)) ⊎ X) ⊎ ((B × N) × R))
regroup = (
  λ cases. elim cases [
    | inl x ↦ inl (inr x)
    | inr (n, inl (a, l)) ↦ inl (inl (a, (l, n)))
    | inr (n, inr (b, r)) ↦ inr ((b, n), r)
  ],
  λ cases. elim cases [
    | inl (inl (a, (l, n))) ↦ inr (n, inl (a, l))
    | inl (inr x) ↦ inl x
    | inr ((b, n), r) ↦ inr (n, inr (b, r))
  ],
)

module _ {D F K T C : Type 0} (loader : Loader D F K T C) where
  open loader use {load_metrics_plugin}

  -- What the plugin table answers, in terms of the configurations.
  abbrev pub NotNamed : String → List (PluginConfig K) → Type 0
  NotNamed name cs = All (λ c. c.name ≢ name) cs

  -- The last configuration of the name loads as a plugin of these metrics.
  abbrev pub IsConfigured : String → List String → List (PluginConfig K) → Type 0
  IsConfigured name metrics [] = ⊥
  IsConfigured name metrics (c ∷ cs) =
      ((c.name ≡ name) × ((load_metrics_plugin c ≡ ok metrics) × NotNamed name cs))
      ⊎ IsConfigured name metrics cs

  -- A plugin offers these metrics: a configured one, or else the builtin one.
  abbrev pub IsOffered : List (PluginConfig K) → String → List String → Type 0
  IsOffered cs name metrics =
      IsConfigured name metrics cs
      ⊎ (NotNamed name cs × ((name ≡ "nighthawk.builtin") × (metrics ≡ loader.builtin)))

  pub IsSupported : List (PluginConfig K) → MetricSpec → Type 0
  IsSupported cs m =
      (metrics : List String) × IsOffered cs m.metrics_plugin_name metrics
      × IsIn m.metric_name metrics

  loaded_entry :
      (c : PluginConfig K) (table : PluginTable) (name : String) (metrics : List String)
      → IsOk (load_metrics_plugin c)
      → (supported_metrics (add_plugin c.name (load_metrics_plugin c) table) name ≡ some metrics)
        ↔ (((c.name ≡ name) × (load_metrics_plugin c ≡ ok metrics))
            ⊎ ((c.name ≢ name) × (supported_metrics table name ≡ some metrics)))
  loaded_entry c table name metrics (listed, loaded) =
      let (there, back) = entry_lem c.name name listed metrics table in
      (
        λ h.
            elim (there (
              subst (λ r. supported_metrics (add_plugin c.name r table) name ≡ some metrics) loaded
                h)) [ inl (e, same) ↦ inl (e, loaded ∙ ap ok same) | inr other ↦ inr other ],
        λ cases.
            subst (λ r. supported_metrics (add_plugin c.name r table) name ≡ some metrics)
              (sym loaded)
              (back (elim cases [
                | inl (e, h) ↦ inl (e, ok-injective _ _ (sym loaded ∙ h))
                | inr other ↦ inr other
              ])),
      )

  in_second : {X N P Q : Type 0} → P ↔ Q → (X ⊎ (N × P)) ↔ (X ⊎ (N × Q))
  in_second (f, g) = (
    λ cases. elim cases [ inl x ↦ inl x | inr (n, p) ↦ inr (n, f p) ],
    λ cases. elim cases [ inl x ↦ inl x | inr (n, q) ↦ inr (n, g q) ],
  )

  plugin_table_lem :
      (cs : List (PluginConfig K)) (table : PluginTable) (name : String) (metrics : List String)
      → All (λ c. IsOk (load_metrics_plugin c)) cs
      → (supported_metrics (plugin_table loader cs table) name ≡ some metrics) ↔ (
          IsConfigured name metrics cs
          ⊎ (NotNamed name cs × (supported_metrics table name ≡ some metrics)))
  unfolding plugin_table
  plugin_table_lem [] table name metrics loads =
      (λ h. inr (tt, h), λ cases. elim cases [ inl missing ↦ absurd missing | inr (empty, h) ↦ h ])
  plugin_table_lem (c ∷ cs) table name metrics (loaded, loads) =
      iff_trans (plugin_table_lem cs _ name metrics loads)
        (iff_trans (in_second (loaded_entry c table name metrics loaded)) regroup)

  builtin_lem :
      (name : String) (metrics : List String)
      → (supported_metrics (("nighthawk.builtin", loader.builtin) ∷ []) name ≡ some metrics)
        ↔ ((name ≡ "nighthawk.builtin") × (metrics ≡ loader.builtin))
  unfolding supported_metrics
  builtin_lem name metrics =
      let (there, back) = entry_lem "nighthawk.builtin" name loader.builtin metrics [] in
      (
        λ h. elim (there h) [
          | inl (e, same) ↦ (sym e, sym same)
          | inr (differs, missing) ↦ ground (arith, missing)
        ],
        λ (e, same). back (inl (sym e, sym same)),
      )

  known_plugins-IsOffered :
      (s : SessionSpec D F K T C) (name : String) (metrics : List String)
      → All (λ c. IsOk (load_metrics_plugin c)) s.metrics_plugin_configs
      → (supported_metrics (known_plugins loader s) name ≡ some metrics)
        ↔ IsOffered s.metrics_plugin_configs name metrics
  unfolding known_plugins
  known_plugins-IsOffered s name metrics loads =
      iff_trans (plugin_table_lem s.metrics_plugin_configs _ name metrics loads)
        (in_second (builtin_lem name metrics))

  pub known_plugins-IsSupported :
      (s : SessionSpec D F K T C) (m : MetricSpec)
      → All (λ c. IsOk (load_metrics_plugin c)) s.metrics_plugin_configs
      → IsListed (known_plugins loader s) m ↔ IsSupported s.metrics_plugin_configs m
  unfolding IsSupported
  known_plugins-IsSupported s m loads = (
    λ (metrics, listed, member). (
      metrics,
      (known_plugins-IsOffered s m.metrics_plugin_name metrics loads).0 listed,
      (contains-IsIn metrics m.metric_name).0 member,
    ),
    λ (metrics, is_offered, member). (
      metrics,
      (known_plugins-IsOffered s m.metrics_plugin_name metrics loads).1 is_offered,
      (contains-IsIn metrics m.metric_name).1 member,
    ),
  )
