-- ===== src/AdaptiveLoad/MetricsPlugin/Errors.antt =====
-- When the plugin has errors: source/adaptive_load/metrics_plugin_impl.cc.
use nighthawk.Base.{
  ℕ, ◌≡◌, refl, Bool, true, false, if◌then◌else◌, ltb, List, [], ◌∷◌, ◌++◌, String, arith,
}
use nighthawk.Base.Chars.{is_empty}
use nighthawk.Base.Text.{str_join}
use nighthawk.Base.Status.{StatusOr, ok, error, internal, fail_with}
use nighthawk.AdaptiveLoad.MetricsPlugin.{
  Doubles, TimeUtil, Statistic, Output, MetricsPlugin, set_metric, add_error, note_error,
  find_metric, get_metric_by_name, assign_rps, assign_latencies,
}

abbrev pub start : {D : Type 0} → MetricsPlugin D
start = record { metric_from_name = []; errors = [] }

not_empty-append {ℓ} : {A : Type ℓ} (xs : List A) (x : A) → is_empty (xs ++ (x ∷ [])) ≡ false
not_empty-append [] x = refl
not_empty-append (y ∷ ys) x = refl

pub has_error :
    {D P : Type 0} (message : String) (p : MetricsPlugin D)
    → is_empty (add_error message p).errors ≡ true
    → P
has_error message p h = ground (arith, h, not_empty-append p.errors message)

pub note_error-none :
    {A D : Type 0} (r : StatusOr A) (p : MetricsPlugin D)
    → is_empty (note_error r p).errors ≡ true
    → ((a : A) × (r ≡ ok a)) × (is_empty p.errors ≡ true)
note_error-none (ok a) p h = ((a, refl), h)
note_error-none (error e) p h = has_error e.message p h

module _ {D T : Type 0} (d : Doubles D) (time : TimeUtil T) where
  pub refused :
      (o : Output T) (p : MetricsPlugin D)
      → is_empty p.errors ≡ false
      → (name : String) → get_metric_by_name p name ≡ fail_with internal (str_join p.errors "\n")
  unfolding get_metric_by_name
  refused o p h name = refused_by p.errors h
    where
      refused_by :
          (es : List String)
          → is_empty es ≡ false
          → (elim es [
            | [] ↦ find_metric p.metric_from_name name
            | e ∷ more ↦ fail_with internal (str_join (e ∷ more) "\n")
          ])
            ≡ fail_with internal (str_join es "\n")
      refused_by [] h = ground (arith, h)
      refused_by (e ∷ es) h = refl

  pub assign_rps-none :
      (seconds : ℕ) (specified sent : D) (p : MetricsPlugin D)
      → is_empty (assign_rps d time seconds specified sent p).errors ≡ true
      → (ltb 0 seconds ≡ true) × (is_empty p.errors ≡ true)
  unfolding assign_rps
  assign_rps-none seconds specified sent p h = by_test (ltb 0 seconds) h
    where
      by_test :
          (b : Bool)
          → is_empty
              (if b
                then set_metric "achieved-rps"
                    (d.div sent (d.of_int seconds))
                    (set_metric "attempted-rps" (d.div specified (d.of_int seconds)) p)
                else add_error "Nighthawk returned a benchmark result with zero actual duration."
                    p).errors
            ≡ true
          → (b ≡ true) × (is_empty p.errors ≡ true)
      by_test true h = (refl, h)
      by_test false h =
          has_error "Nighthawk returned a benchmark result with zero actual duration." p h

  pub assign_latencies-none :
      (r : StatusOr (Statistic T)) (p : MetricsPlugin D)
      → is_empty (assign_latencies d time r p).errors ≡ true
      → ((s : Statistic T) × (r ≡ ok s)) × (is_empty p.errors ≡ true)
  unfolding assign_latencies
  assign_latencies-none (ok s) p h = ((s, refl), h)
  assign_latencies-none (error e) p h = has_error e.message p h
