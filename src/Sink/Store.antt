-- ===== src/Sink/Store.antt =====
-- InMemorySinkImpl and the check of keys, source/sink/sink_impl.cc.
pub mod RoundTrip
mod Tests
use text.Mathlib.Text.{◌==◌ as str_eq}
use nighthawk.Base.{
  Bool, true, false, if◌then◌else◌, List, [], ◌∷◌, ◌++◌, Option, none, some, String,
}
use nighthawk.Base.Text.{str_cat}
use nighthawk.Base.Status.{StatusOr, ok, error, invalid_argument, not_found, fail_with, ◌>>=◌}
use nighthawk.Sink.Merge.{ExecutionResponse}

-- validateKey() without the check for a directory name, which only the file sink asks for.
unfoldable pub validate_key : String → StatusOr (Unit {0})
validate_key key =
    if str_eq key "" then fail_with invalid_argument "empty key is not allowed." else ok tt

-- map_, each key once.
abbrev pub InMemorySink : Type 0 → Type 0
InMemorySink R = List (String × List R)

module _ {R : Type 0} where
  unfoldable pub find : String → InMemorySink R → Option (List R)
  find key [] = none
  find key ((k, pieces) ∷ sink) =
      let rest = find key sink in if str_eq k key then some pieces else rest

  -- insert() of an empty vector unless there is one, and push_back() on what it points at.
  unfoldable pub push : String → R → InMemorySink R → InMemorySink R
  push key r [] = (key, r ∷ []) ∷ []
  push key r ((k, pieces) ∷ sink) =
      let rest = push key r sink in
      if str_eq k key then (k, pieces ++ (r ∷ [])) ∷ sink else (k, pieces) ∷ rest

  abbrev pub found : String → Option (List R) → StatusOr (List R)
  found id (some pieces) = ok pieces
  found id none =
      fail_with not_found (str_cat ("No results found for execution-id: '" ∷ id ∷ "'" ∷ []))

  -- LoadExecutionResult()
  unfoldable pub load_execution_result : String → InMemorySink R → StatusOr (List R)
  unfolding validate_key find
  load_execution_result id sink = validate_key id >>= λ valid. found id (find id sink)

-- StoreExecutionResultPiece()
unfoldable pub store_execution_result_piece :
    {O V R E : Type 0}
    → ExecutionResponse O V R E
    → InMemorySink (ExecutionResponse O V R E)
    → StatusOr (InMemorySink (ExecutionResponse O V R E))
unfolding validate_key push
store_execution_result_piece r sink =
    validate_key r.execution_id >>= λ valid. ok (push r.execution_id r sink)
