-- ===== src/Sink/Store/Tests.antt =====
-- A sink with one piece, and another piece of the same execution.
use nighthawk.Base.{ℕ, [], ◌∷◌, ◌++◌, none, String, ◌≡◌, ◌≢◌, refl}
use nighthawk.Base.Status.{ok}
use nighthawk.Sink.Merge.{ExecutionResponse}
use nighthawk.Sink.Store.{InMemorySink, find, load_execution_result, store_execution_result_piece}
use nighthawk.Sink.Store.RoundTrip.{pieces_of, store_load}

abbrev piece : ℕ → ExecutionResponse ℕ ℕ ℕ ℕ
piece result = record {
  execution_id = "a";
  error_detail = none;
  output = record { options = none; timestamp = 0; version = 0; results = result ∷ [] };
}

abbrev sink : InMemorySink (ExecutionResponse ℕ ℕ ℕ ℕ)
sink = ("a", piece 1 ∷ []) ∷ []

abbrev sink' : InMemorySink (ExecutionResponse ℕ ℕ ℕ ℕ)
sink' = ("a", piece 1 ∷ piece 2 ∷ []) ∷ []

store_load_example :
    (load_execution_result "a" sink' ≡ ok (pieces_of (find "a" sink) ++ (piece 2 ∷ [])))
    × ((other : String)
        → other ≢ "a"
        → load_execution_result other sink' ≡ load_execution_result other sink)
unfolding store_execution_result_piece
store_load_example = store_load (piece 2) sink sink' refl
