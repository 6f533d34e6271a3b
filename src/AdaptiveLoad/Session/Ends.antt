-- ===== src/AdaptiveLoad/Session/Ends.antt =====
-- That a session ends: the loop of the adjusting stage in adaptive_load_controller_impl.cc.
use nighthawk.Base.{
  ℕ, ◌<◌, Bool, true, false, List, [], ◌∷◌, ◌++◌, Option, some, ◌≡◌, refl, lt→ltb, ltb,
  if◌then◌else◌,
}
use nighthawk.Base.Text.{str_cat}
use nighthawk.Base.Status.{StatusOr, ok, error, fail_with, deadline_exceeded}
use nighthawk.AdaptiveLoad.Session.{
  StepController, Round, Stages, SessionOutput, goes_on, after_round, adjusting_stage,
  testing_stage, perform_session,
}

if-some :
    {X : Type 0} (late on : Bool) (late_one : X) (rest : Option X) (now : X)
    → (x : X) × (rest ≡ some x)
    → (x : X) × ((if late then some late_one else (if on then rest else some now)) ≡ some x)
if-some true on late_one rest now r = (late_one, refl)
if-some false true late_one rest now r = r
if-some false false late_one rest now r = (now, refl)

module _ {C O B : Type 0} (controller : StepController C O B) (stages : Stages) where
  after_round-late :
      (elapsed : ℕ) (results : List B) (step : StatusOr (B × C))
      (next : C → List B → Option (StatusOr (C × List B)))
      → stages.convergence_deadline < elapsed
      → (r : StatusOr (C × List B)) × (after_round controller stages elapsed results step next
          ≡ some r)
  unfolding after_round
  after_round-late elapsed results (error e) next h = (error e, refl)
  after_round-late elapsed results (ok (b, c)) next h = (
    fail_with deadline_exceeded (
        str_cat
          ("Failed to converge before deadline of " ∷ stages.deadline_seconds ∷ " seconds." ∷ [])),
    rw (lt→ltb stages.convergence_deadline elapsed h),
  )

  after_round-total :
      (elapsed : ℕ) (results : List B) (step : StatusOr (B × C))
      (next : C → List B → Option (StatusOr (C × List B)))
      → ((c : C) (rs : List B) → (r : StatusOr (C × List B)) × (next c rs ≡ some r))
      → (r : StatusOr (C × List B)) × (after_round controller stages elapsed results step next
          ≡ some r)
  unfolding after_round
  after_round-total elapsed results (error e) next h = (error e, refl)
  after_round-total elapsed results (ok (b, c)) next h =
      if-some (ltb stages.convergence_deadline elapsed) (goes_on controller c) _ _ _
        (h c (results ++ (b ∷ [])))

module _ {C O R B : Type 0} (controller : StepController C O B) (set_duration : ℕ → O → O) where
  adjusting_stage-ends :
      (stages : Stages) (early rest : List (Round O R B)) (late : Round O R B) (c : C)
      (results : List B)
      → stages.convergence_deadline < late.elapsed
      → (r : StatusOr (C × List B)) × (adjusting_stage controller set_duration stages
            (early ++ (late ∷ rest))
            c
            results
          ≡ some r)
  unfolding adjusting_stage after_round
  adjusting_stage-ends stages [] rest late c results h =
      after_round-late controller stages late.elapsed results _ _ h
  adjusting_stage-ends stages (round ∷ early) rest late c results h =
      after_round-total controller stages round.elapsed results _ _
        (λ c' rs. adjusting_stage-ends stages early rest late c' rs h)

  -- A session ends, with an output or an error, as soon as the benchmarks take long enough for one
  -- of them to end after the convergence deadline.
  pub session_ends :
      (stages : Stages) (early rest : List (Round O R B)) (late final : Round O R B) (c : C)
      → stages.convergence_deadline < late.elapsed
      → (r : StatusOr (SessionOutput B)) × (perform_session controller set_duration stages
            (early ++ (late ∷ rest))
            final
            c
          ≡ some r)
  unfolding perform_session
  session_ends stages early rest late final c h =
      let (r, e) = adjusting_stage-ends stages early rest late c [] h in
      (testing_stage controller set_duration stages final r, rw (e, perform_session))
