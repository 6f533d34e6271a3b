-- ===== src/Common/Termination.antt =====
-- Termination predicates: source/common/termination_predicate_impl.{h,cc} and the interface
-- include/nighthawk/common/termination_predicate.h.
use nighthawk.Base.{ℕ, ◌+◌, ◌*◌, List, [], ◌∷◌, ◌++◌, ltb, if◌then◌else◌}
use nighthawk.Base.Result.{Result, ok, err, abort, ◌>>=◌}
pub mod Laws
mod Tests

pub data Status : Type 0 where
  proceed terminate fail : Status

-- What a predicate reads of the world: the monotonic clock in nanoseconds, and the counters of the
-- store, by an identity.
pub record World : Type 0 where
  pub monotonic_time : ℕ
  pub counter_value : ℕ → ℕ

-- DurationTerminationPredicateImpl and StatsCounterAbsoluteThresholdTerminationPredicateImpl.
pub data Predicate : Type 0 where
  -- start, and duration in microseconds
  duration : ℕ → ℕ → Predicate
  -- counter, limit, status
  counter_threshold : ℕ → ℕ → Status → Predicate

-- The elapsed time is compared in nanoseconds, the finer unit of the two.
unfoldable pub evaluate : World → Predicate → Status
evaluate w (duration start length) =
    if ltb (start + length * 1000) w.monotonic_time then terminate else proceed
evaluate w (counter_threshold counter limit status) =
    if ltb limit (w.counter_value counter) then status else proceed

-- A predicate with its linked child.
pub data Chain : Type 0 where
  alone : Predicate → Chain
  linked : Predicate → Chain → Chain

-- link(): a second child is a failed RELEASE_ASSERT.
unfoldable pub link : Chain → Chain → Result Chain
link (alone p) child = ok (linked p child)
link (linked p c) child = err abort

unfoldable pub append_to_chain : Chain → Chain → Result Chain
unfolding link
append_to_chain (alone p) child = link (alone p) child
append_to_chain (linked p c) child = append_to_chain c child >>= λ c'. ok (linked p c')

-- The child's status comes first, and the own predicate is asked only if that is `proceed`.
unfoldable pub after_child : Status → Status → Status
after_child proceed own = own
after_child terminate own = terminate
after_child fail own = fail

unfoldable pub evaluate_chain : World → Chain → Status
unfolding evaluate after_child
evaluate_chain w (alone p) = evaluate w p
evaluate_chain w (linked p c) = after_child (evaluate_chain w c) (evaluate w p)

-- The predicates from the last child of the chain to its head: the order of evaluation.
unfoldable pub innermost_first : Chain → List Predicate
innermost_first (alone p) = p ∷ []
innermost_first (linked p c) = innermost_first c ++ (p ∷ [])

-- The first status of a list that is not `proceed`, if there is one.
unfoldable pub first_stop : List Status → Status
first_stop [] = proceed
first_stop (proceed ∷ statuses) = first_stop statuses
first_stop (terminate ∷ statuses) = terminate
first_stop (fail ∷ statuses) = fail
