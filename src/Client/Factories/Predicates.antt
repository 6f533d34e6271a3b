-- ===== src/Client/Factories/Predicates.antt =====
-- TerminationPredicateFactoryImpl, source/client/factories_impl.cc.
use nighthawk.Base.{
  ℕ, ◌+◌, ◌*◌, ◌≡◌, refl, ap, ◌∙◌, Bool, true, false, not, ◌||◌, ◌&&◌, ltb, if◌then◌else◌, [], ◌∷◌,
  Bool-cases, inl, inr,
}
use nighthawk.Base.Chars.{Chars, codes}
use nighthawk.Base.Result.{Result, ok, release_assert, ◌>>=◌, ◌>>◌}
use nighthawk.Common.Termination.{
  Status, proceed, terminate, fail, World, duration, counter_threshold, Chain, alone, linked, link,
  append_to_chain, evaluate, evaluate_chain, after_child,
}
use nighthawk.Common.Termination.Laws.{evaluate_chain-append_to_chain}
use nighthawk.Client.Options.{Options, PredicateMap}

unfoldable pub is_proceed : Status → Bool
is_proceed proceed = true
is_proceed status = false

after_either :
    (status before : Status) (now later : Bool)
    → (if later
        then after_child status (after_child (if now then status else proceed) before)
        else after_child (if now then status else proceed) before)
      ≡ (if now || later then after_child status before else before)
unfolding after_child
after_either status before true false = refl
after_either status before false true = refl
after_either status before false false = refl
after_either proceed before true true = refl
after_either terminate before true true = refl
after_either fail before true true = refl

after_either_lem :
    (passed : Bool) (status : Status)
    → after_child (if passed then terminate else proceed) status
      ≡ (if passed then terminate else status)
unfolding after_child
after_either_lem true status = refl
after_either_lem false status = refl

-- `counter` is the identity of the counter with a name, Scope::counterFromString().
module _ (counter : Chars → ℕ) where
  -- The predicates are linked to the last one of the chain, each to the one before it.
  unfoldable pub link_predicates : Status → PredicateMap → Chain → Result Chain
  unfolding append_to_chain
  link_predicates status [] chain = ok chain
  link_predicates status ((name, threshold) ∷ predicates) chain =
      append_to_chain chain (alone (counter_threshold (counter name) threshold status))
      >>= λ linked. link_predicates status predicates linked

  -- linkConfiguredPredicates()
  unfoldable pub link_configured_predicates : Chain → PredicateMap → Status → Result Chain
  unfolding link_predicates is_proceed
  link_configured_predicates chain predicates status = do
    release_assert (not (is_proceed status))
    link_predicates status predicates chain

  unfoldable pub root_predicate : Chain
  root_predicate = alone (counter_threshold (counter (codes "graceful_stop_requested")) 0 terminate)

  module _ {M : Type 0} where
    unfoldable pub link_duration : Options M → ℕ → Chain → Result Chain
    unfolding append_to_chain
    link_duration o scheduled_starting_time chain =
        if o.no_duration
        then ok chain
        else append_to_chain chain (alone (duration scheduled_starting_time (o.duration * 1000000)))

    -- TerminationPredicateFactoryImpl::create()
    unfoldable pub create_predicates : Options M → ℕ → Result Chain
    unfolding root_predicate link_duration link_configured_predicates
    create_predicates o scheduled_starting_time = do
      timed ← link_duration o scheduled_starting_time root_predicate
      failing ← link_configured_predicates timed o.failure_predicates fail
      link_configured_predicates failing o.termination_predicates terminate

  -- Some counter is above its threshold.
  abbrev pub any_exceeded : World → PredicateMap → Bool
  any_exceeded w [] = false
  any_exceeded w ((name, threshold) ∷ predicates) =
      ltb threshold (w.counter_value (counter name)) || any_exceeded w predicates

  link_predicates_lem :
      (w : World) (status : Status) (predicates : PredicateMap) (chain : Chain)
      → (c : Chain) × (link_predicates status predicates chain ≡ ok c)
        × (evaluate_chain w c ≡ (
            if any_exceeded w predicates
            then after_child status (evaluate_chain w chain)
            else evaluate_chain w chain))
  unfolding link_predicates evaluate_chain evaluate
  link_predicates_lem w status [] chain = (chain, refl, refl)
  link_predicates_lem w status ((name, threshold) ∷ predicates) chain =
      let child = alone (counter_threshold (counter name) threshold status) in
      let (r, appended, first) = evaluate_chain-append_to_chain w chain child in
      let (c, done, rest) = link_predicates_lem w status predicates r in
      (
        c,
        rw appended done,
        rest
            ∙ ap (λ e. if any_exceeded w predicates then after_child status e else e) first
            ∙ after_either status (evaluate_chain w chain)
                (ltb threshold (w.counter_value (counter name))) (any_exceeded w predicates),
      )

  -- What the options ask for: a termination predicate that fires comes before a failure predicate,
  -- this before the duration, and this before a request to stop.
  abbrev pub decided : {M : Type 0} → World → Options M → ℕ → Status
  decided w o start =
      if any_exceeded w o.termination_predicates
      then terminate
      else if any_exceeded w o.failure_predicates
      then fail
      else if not o.no_duration && ltb (start + o.duration * 1000000 * 1000) w.monotonic_time
      then terminate
      else if ltb 0 (w.counter_value (counter (codes "graceful_stop_requested")))
      then terminate
      else proceed

  timed_lem :
      {M : Type 0} (w : World) (o : Options M) (start : ℕ)
      → (c : Chain) × (link_duration o start root_predicate ≡ ok c)
        × (evaluate_chain w c ≡ (
            if not o.no_duration && ltb (start + o.duration * 1000000 * 1000) w.monotonic_time
            then terminate
            else if ltb 0 (w.counter_value (counter (codes "graceful_stop_requested")))
            then terminate
            else proceed))
  unfolding link_duration root_predicate evaluate_chain evaluate append_to_chain link
  timed_lem w o start = elim (Bool-cases o.no_duration) [
    | inl untimed ↦ (root_predicate, rw untimed refl, rw untimed refl)
    | inr timed ↦ (
      linked (counter_threshold (counter (codes "graceful_stop_requested")) 0 terminate)
          (alone (duration start (o.duration * 1000000))),
      rw timed refl,
      rw timed (after_either_lem (ltb (start + o.duration * 1000000 * 1000) w.monotonic_time) _),
    )
  ]

  -- The assembly never aborts. The status of the chain is `terminate` if any of the counters of the
  -- termination predicates is above its threshold, else `fail` if one of the failure predicates is,
  -- and else `terminate` if the duration has passed since the scheduled start, unless there is none,
  -- or if a graceful stop is requested.
  pub create_predicates_lem :
      {M : Type 0} (w : World) (o : Options M) (start : ℕ)
      → (c : Chain) × (create_predicates o start ≡ ok c) × (evaluate_chain w c ≡ decided w o start)
  unfolding create_predicates link_configured_predicates is_proceed after_child
  create_predicates_lem w o start =
      let (timed, h1, e1) = timed_lem w o start in
      let (failing, h2, e2) = link_predicates_lem w fail o.failure_predicates timed in
      let (c, h3, e3) = link_predicates_lem w terminate o.termination_predicates failing in
      (
        c,
        rw h1 (rw h2 h3),
        e3
            ∙ ap (λ s. if any_exceeded w o.termination_predicates then terminate else s)
                (e2 ∙ ap (λ s. if any_exceeded w o.failure_predicates then fail else s) e1),
      )
