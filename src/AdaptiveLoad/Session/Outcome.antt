-- ===== src/AdaptiveLoad/Session/Outcome.antt =====
-- What a session that succeeds has done: adaptive_load_controller_impl.cc.
use nighthawk.Base.{
  ℕ, ◌≤◌, Bool, true, false, List, [], ◌∷◌, ◌++◌, Option, none, some, append_assoc, ◌≡◌, refl, sym,
  subst, ap, ◌∙◌, arith, Option-cases, String, ltb, not, ◌&&◌, ◌⊎◌, inl, inr, if◌then◌else◌,
}
use mathlib.Core.Option.{some-injective}
use nighthawk.Base.Status.{ok-injective, StatusOr, StatusOr-cases, ok, Error, error}
use nighthawk.AdaptiveLoad.Session.{
  StepController, Round, Stages, SessionOutput, goes_on, after_round, perform_and_analyze,
  adjusting_stage, output_of, testing_stage, perform_session,
}

-- A chain of tests that ends in a success has failed the first of them.
if-ok :
    {X : Type 0} (late on : Bool) (e : Error) (rest : Option (StatusOr X)) (now x : X)
    → (if late then some (error e) else (if on then rest else some (ok now))) ≡ some (ok x)
    → (late ≡ false) × (((on ≡ false) × (now ≡ x)) ⊎ ((on ≡ true) × (rest ≡ some (ok x))))
if-ok true on e rest now x h = ground (arith, h)
if-ok false true e rest now x h = (refl, inr (refl, h))
if-ok false false e rest now x h = (refl, inl (refl, ground (arith, h)))

and-true-false : (b : Bool) → (not b && true) ≡ false → b ≡ true
and-true-false true h = refl
and-true-false false h = sym h

goes_on-stopped :
    {C O B : Type 0} (controller : StepController C O B) (c : C)
    → goes_on controller c ≡ false
    → controller.is_doomed c ≡ none
    → controller.is_converged c ≡ true
goes_on-stopped controller c h sound = and-true-false (controller.is_converged c) (
    subst
      (λ d.
        (not (controller.is_converged c) && (elim d [ none ↦ true | some reason ↦ false ])) ≡ false)
      sound h)

output_of-ok :
    {B C : Type 0} (results : List B) (doomed : Option String) (final : StatusOr (B × C))
    (out : SessionOutput B)
    → output_of results doomed final ≡ ok out
    → (doomed ≡ none)
      × (results ≡ out.adjusting_stage_results)
      × ((c : C) × (final ≡ ok (out.testing_stage_result, c)))
unfolding output_of
output_of-ok results (some reason) final out h = ground (arith, h)
output_of-ok results none (error e) out h = ground (arith, h)
output_of-ok results none (ok (b, c)) out h =
    let e = ok-injective _ _ h in
    (refl, ap (λ o. o.adjusting_stage_results) e, (c, ap (λ o. ok (o.testing_stage_result, c)) e))

module _ {C O R B : Type 0} (controller : StepController C O B) (set_duration : ℕ → O → O) where
  open controller use {is_converged, is_doomed}

  -- The rounds that an adjusting stage from `c` runs through: each benchmark succeeds within the
  -- deadline, and the controller wants another one after each but the last.
  pub data Adjusted (stages : Stages) : List (Round O R B) → C → List B → C → Type 0 where
    last :
        {round : Round O R B} {rounds : List (Round O R B)} {c c' : C} {b : B}
        → perform_and_analyze controller set_duration round stages.measuring_period c ≡ ok (b, c')
        → round.elapsed ≤ stages.convergence_deadline
        → goes_on controller c' ≡ false
        → Adjusted stages (round ∷ rounds) c (b ∷ []) c'
    more :
        {round : Round O R B} {rounds : List (Round O R B)} {c c' end : C} {b : B} {bs : List B}
        → perform_and_analyze controller set_duration round stages.measuring_period c ≡ ok (b, c')
        → round.elapsed ≤ stages.convergence_deadline
        → goes_on controller c' ≡ true
        → Adjusted stages rounds c' bs end
        → Adjusted stages (round ∷ rounds) c (b ∷ bs) end

  adjusting_stage-Adjusted :
      (stages : Stages) (rounds : List (Round O R B)) (c end : C) (results all : List B)
      → adjusting_stage controller set_duration stages rounds c results ≡ some (ok (end, all))
      → (bs : List B) × (all ≡ results ++ bs) × Adjusted stages rounds c bs end
  unfolding adjusting_stage
  adjusting_stage-Adjusted stages [] c end results all h = ground (arith, h)
  adjusting_stage-Adjusted stages (round ∷ rounds) c end results all h =
      elim (StatusOr-cases
        (perform_and_analyze controller set_duration round stages.measuring_period c)) [
          | inl (e, failed) ↦ ground (
            arith,
            subst
                (λ s.
                  after_round controller stages round.elapsed results s
                    (adjusting_stage controller set_duration stages rounds)
                  ≡ some (ok (end, all)))
                failed h,
          )
          | inr ((b, next), performed) ↦
              let (early, on) =
                if-ok (ltb stages.convergence_deadline round.elapsed) (goes_on controller next) _
                  (adjusting_stage controller set_duration stages rounds next (results ++ (b ∷ [])))
                  (next, results ++ (b ∷ [])) (end, all)
                  (subst
                    (λ s.
                      after_round controller stages round.elapsed results s
                        (adjusting_stage controller set_duration stages rounds)
                      ≡ some (ok (end, all)))
                    performed h) in
              let in_time : round.elapsed ≤ stages.convergence_deadline = ground (arith, early) in
              elim on [
                | inl (ended, e) ↦ (
                  b ∷ [],
                  sym (ap (λ r. r.1) e),
                  subst (λ x. Adjusted stages (round ∷ rounds) c (b ∷ []) x) (ap (λ r. r.0) e)
                      (last performed in_time ended),
                )
                | inr (continued, later) ↦
                    let (bs, e, adjusted) =
                      adjusting_stage-Adjusted stages rounds next end (results ++ (b ∷ [])) all
                        later in
                    (
                      b ∷ bs,
                      e ∙ append_assoc results (b ∷ []) bs,
                      more performed in_time continued adjusted,
                    )
              ]
        ]

  Adjusted-stopped :
      {stages : Stages} {rounds : List (Round O R B)} {c end : C} {bs : List B}
      → Adjusted stages rounds c bs end
      → goes_on controller end ≡ false
  Adjusted-stopped (last performed in_time ended) = ended
  Adjusted-stopped (more performed in_time continued adjusted) = Adjusted-stopped adjusted

  testing_stage-ok :
      (stages : Stages) (final : Round O R B) (end : C) (bs : List B) (out : SessionOutput B)
      → testing_stage controller set_duration stages final (ok (end, bs)) ≡ ok out
      → (is_doomed end ≡ none)
        × (bs ≡ out.adjusting_stage_results)
        × ((after : C) × (perform_and_analyze controller set_duration final
                stages.testing_stage_duration end
              ≡ ok (out.testing_stage_result, after)))
  unfolding testing_stage
  testing_stage-ok stages final end bs out h = output_of-ok bs (is_doomed end) _ out h

  -- A session that succeeds reports the results of a run of the adjusting stage in order, none of
  -- them past the deadline and each but the last followed because the controller asked for another;
  -- the controller has then converged and is not doomed, and the testing result is that of a
  -- benchmark of the testing duration under the options of that state.
  pub session_converged :
      (stages : Stages) (rounds : List (Round O R B)) (final : Round O R B) (c : C)
      (out : SessionOutput B)
      → perform_session controller set_duration stages rounds final c ≡ some (ok out)
      → (end : C) × Adjusted stages rounds c out.adjusting_stage_results end
        × (is_converged end ≡ true)
        × (is_doomed end ≡ none)
        × ((after : C) × (perform_and_analyze controller set_duration final
                stages.testing_stage_duration end
              ≡ ok (out.testing_stage_result, after)))
  unfolding perform_session
  session_converged stages rounds final c out h =
      elim (Option-cases (adjusting_stage controller set_duration stages rounds c [])) [
        | inl ran_out ↦ ground (
          arith,
          subst
              (λ a.
                elim a [
                  | none ↦ none
                  | some x ↦ some (testing_stage controller set_duration stages final x)
                ]
                ≡ some (ok out))
              ran_out h,
        )
        | inr (error e, failed) ↦ ground (
          arith,
          subst
              (λ a.
                elim a [
                  | none ↦ none
                  | some x ↦ some (testing_stage controller set_duration stages final x)
                ]
                ≡ some (ok out))
              failed h,
        )
        | inr (ok (end, all), adjusted) ↦
            let (sound, e, tested) = testing_stage-ok stages final end all out (
              some-injective _ _ (
                subst
                  (λ a.
                    elim a [
                      | none ↦ none
                      | some x ↦ some (testing_stage controller set_duration stages final x)
                    ]
                    ≡ some (ok out))
                  adjusted h)) in
            let (bs, e', run) = adjusting_stage-Adjusted stages rounds c end [] all adjusted in
            (
              end,
              subst (λ bs. Adjusted stages rounds c bs end) (sym e' ∙ e) run,
              goes_on-stopped controller end (Adjusted-stopped run) sound,
              sound,
              tested,
            )
      ]
