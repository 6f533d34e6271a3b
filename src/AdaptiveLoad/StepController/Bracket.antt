-- ===== src/AdaptiveLoad/StepController/Bracket.antt =====
-- What the exponential search knows about the loads that it has tried: step_controller_impl.cc.
use nighthawk.Base.{
  ◌≡◌, ◌⊎◌, refl, true, false, List, [], ◌∷◌, Option, none, some, inl, inr, if◌then◌else◌, arith,
  Bool-cases, ap, ◌≢◌, sym, subst, String,
}
use nighthawk.AdaptiveLoad.StepController.{
  Doubles, MetricEvaluation, ExponentialSearch, within_thresholds, exponential_search, is_converged,
  update_and_recompute,
}

-- The latest element of a list that has the latest one first.
abbrev pub IsLatest : {A : Type 0} → A → List A → Type 0
IsLatest a [] = ⊥
IsLatest a (x ∷ xs) = x ≡ a

-- A controller, with the loads that it recommended and whose benchmark was within the thresholds,
-- and those whose benchmark was not, the latest ones first.
pub record Trial (D : Type 0) : Type 0 where
  pub controller : ExponentialSearch D
  pub passed : List D
  pub failed : List D

module _ {D : Type 0} (doubles : Doubles D) where
  open doubles use {midpoint, within_one_percent}

  unfoldable pub try_load : List (MetricEvaluation D) → Trial D → Trial D
  try_load evaluations t =
      let within = within_thresholds doubles evaluations in
      let load = t.controller.current_load_value in
      record {
        controller = update_and_recompute doubles evaluations t.controller;
        passed = if within then load ∷ t.passed else t.passed;
        failed = if within then t.failed else load ∷ t.failed;
      }

  -- The benchmarks of a session, which stops when the controller is doomed.
  unfoldable pub try_loads : List (List (MetricEvaluation D)) → Trial D → Trial D
  unfolding try_load
  try_loads [] t = t
  try_loads (e ∷ es) t =
      let rest = try_loads es (try_load e t) in
      elim t.controller.doom_reason [ none ↦ rest | some reason ↦ t ]

  -- While it looks for a range no load has failed, and the last one that passed is remembered.
  pub record IsRanging (t : Trial D) : Type 0 where
    pub ranging : t.controller.is_range_finding_phase ≡ true
    pub hopeful : t.controller.doom_reason ≡ none
    pub unfailed : t.failed ≡ []
    pub remembered :
        ((t.controller.previous_load_value ≡ none) × (t.passed ≡ []))
        ⊎ ((p : D) × (t.controller.previous_load_value ≡ some p) × IsLatest p t.passed)

  -- The binary search keeps the last load that passed below and the last that failed above, and tries
  -- the midpoint; the load before was one of the two.
  pub record IsSearching (t : Trial D) : Type 0 where
    pub searching : t.controller.is_range_finding_phase ≡ false
    pub hopeful : t.controller.doom_reason ≡ none
    pub bottom_passed : IsLatest t.controller.bottom_load_value t.passed
    pub top_failed : IsLatest t.controller.top_load_value t.failed
    pub halved :
        t.controller.current_load_value
        ≡ midpoint t.controller.bottom_load_value t.controller.top_load_value
    pub previous :
        (t.controller.previous_load_value ≡ some t.controller.bottom_load_value)
        ⊎ (t.controller.previous_load_value ≡ some t.controller.top_load_value)

  -- The very first load failed.
  pub record IsDoomed (t : Trial D) : Type 0 where
    pub ranging : t.controller.is_range_finding_phase ≡ true
    pub hopeless : t.controller.doom_reason ≢ none
    pub none_passed : t.passed ≡ []

  abbrev pub IsKnown : Trial D → Type 0
  IsKnown t = IsRanging t ⊎ IsSearching t

  IsRanging-passed :
      (t : Trial D) (evaluations : List (MetricEvaluation D))
      → within_thresholds doubles evaluations ≡ true
      → IsRanging t
      → IsRanging (try_load evaluations t)
  unfolding try_load update_and_recompute
  IsRanging-passed t evaluations w r = record {
    ranging = ground arith;
    hopeful = ground arith;
    unfailed = ground arith;
    remembered = inr (t.controller.current_load_value, ground arith, ground arith);
  }

  ranging-failed :
      (t : Trial D) (evaluations : List (MetricEvaluation D))
      → within_thresholds doubles evaluations ≡ false
      → IsRanging t
      → IsSearching (try_load evaluations t) ⊎ IsDoomed (try_load evaluations t)
  unfolding try_load update_and_recompute
  ranging-failed t evaluations w r = elim r.remembered [
    | inl (unset, empty) ↦ inr (ground arith)
    | inr (p, set, has) ↦ inl (ground arith)
  ]

  searching_lem :
      (t : Trial D) (evaluations : List (MetricEvaluation D))
      → IsSearching t
      → IsSearching (try_load evaluations t)
  unfolding try_load update_and_recompute
  searching_lem t evaluations s = elim (Bool-cases (within_thresholds doubles evaluations)) [
    | inl w ↦ ground arith
    | inr w ↦ ground arith
  ]

  try_load-IsKnown :
      (t : Trial D) (evaluations : List (MetricEvaluation D))
      → IsKnown t
      → IsKnown (try_load evaluations t) ⊎ IsDoomed (try_load evaluations t)
  try_load-IsKnown t evaluations (inl r) =
      elim (Bool-cases (within_thresholds doubles evaluations)) [
        | inl w ↦ inl (inl (IsRanging-passed t evaluations w r))
        | inr w ↦ elim (ranging-failed t evaluations w r) [ inl s ↦ inl (inr s) | inr d ↦ inr d ]
      ]
  try_load-IsKnown t evaluations (inr s) = inl (inr (searching_lem t evaluations s))

  try_loads_hopeful :
      (t : Trial D) (e : List (MetricEvaluation D)) (es : List (List (MetricEvaluation D)))
      → t.controller.doom_reason ≡ none
      → try_loads (e ∷ es) t ≡ try_loads es (try_load e t)
  unfolding try_loads
  try_loads_hopeful t e es h =
      ap (λ (o : Option String). elim o [ none ↦ try_loads es (try_load e t) | some reason ↦ t ]) h

  try_loads_doomed :
      (t : Trial D) (es : List (List (MetricEvaluation D)))
      → t.controller.doom_reason ≢ none
      → try_loads es t ≡ t
  unfolding try_loads
  try_loads_doomed t [] h = refl
  try_loads_doomed t (e ∷ es) h = ground arith

  hopeful_of : {t : Trial D} → IsKnown t → t.controller.doom_reason ≡ none
  hopeful_of (inl r) = r.hopeful
  hopeful_of (inr s) = s.hopeful

  try_loads-IsKnown :
      (es : List (List (MetricEvaluation D))) (t : Trial D)
      → IsKnown t
      → IsKnown (try_loads es t) ⊎ IsDoomed (try_loads es t)
  unfolding try_loads
  try_loads-IsKnown [] t k = inl k
  try_loads-IsKnown (e ∷ es) t k =
      subst (λ u. IsKnown u ⊎ IsDoomed u) (sym (try_loads_hopeful t e es (hopeful_of k)))
        (elim (try_load-IsKnown t e k) [
          | inl k' ↦ try_loads-IsKnown es (try_load e t) k'
          | inr d ↦
              subst (λ u. IsKnown u ⊎ IsDoomed u)
                (sym (try_loads_doomed (try_load e t) es d.hopeless)) (inr d)
        ])

  -- Before the first benchmark.
  abbrev pub new_trial : D → D → Trial D
  new_trial factor initial_value = record {
    controller = exponential_search doubles factor initial_value;
    passed = [];
    failed = [];
  }

  new_trial-IsKnown : (factor initial_value : D) → IsKnown (new_trial factor initial_value)
  unfolding exponential_search
  new_trial-IsKnown factor initial_value =
      inl
        (record { ranging = refl; hopeful = refl; unfailed = refl; remembered = inl (refl, refl) })

  -- After any benchmarks of a session: either no load has failed yet and the last one that passed is
  -- remembered; or a binary search is under way, with the last load that passed at its bottom, the
  -- last that failed at its top, and their midpoint as the next load; or no load has ever passed and
  -- the controller is doomed.
  pub search_bracket :
      (factor initial_value : D) (es : List (List (MetricEvaluation D)))
      → IsKnown (try_loads es (new_trial factor initial_value))
        ⊎ IsDoomed (try_loads es (new_trial factor initial_value))
  search_bracket factor initial_value es =
      try_loads-IsKnown es (new_trial factor initial_value) (new_trial-IsKnown factor initial_value)

  converged-IsSearching :
      (t : Trial D)
      → is_converged doubles t.controller ≡ true
      → IsKnown t ⊎ IsDoomed t
      → IsSearching t
        × ((within_one_percent t.controller.current_load_value t.controller.bottom_load_value
              ≡ true)
            ⊎ (within_one_percent t.controller.current_load_value t.controller.top_load_value
                ≡ true))
  unfolding is_converged
  converged-IsSearching t c (inl (inl r)) = absurd (ground (arith, r.ranging))
  converged-IsSearching t c (inl (inr s)) = (s, ground (arith, s.previous))
  converged-IsSearching t c (inr d) = absurd (ground (arith, d.ranging))

  -- When the controller reports convergence, the recommended load is the midpoint of a load that
  -- passed and a load that failed, and is within one percent of one of the two.
  pub converged_bracket :
      (factor initial_value : D) (es : List (List (MetricEvaluation D)))
      → is_converged doubles (try_loads es (new_trial factor initial_value)).controller ≡ true
      → let t = try_loads es (new_trial factor initial_value) in
        IsSearching t
        × ((within_one_percent t.controller.current_load_value t.controller.bottom_load_value
              ≡ true)
            ⊎ (within_one_percent t.controller.current_load_value t.controller.top_load_value
                ≡ true))
  converged_bracket factor initial_value es c =
      converged-IsSearching (try_loads es (new_trial factor initial_value)) c
        (search_bracket factor initial_value es)
