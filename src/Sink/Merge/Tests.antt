-- ===== src/Sink/Merge/Tests.antt =====
-- Two responses of one execution.
use nighthawk.Base.{ℕ, ◌==◌, List, [], ◌∷◌, Option, none, some, ◌≡◌, refl, All}
use nighthawk.Sink.Merge.{ExecutionResponse, Aggregate, Messages, merge_execution_responses}
use nighthawk.Sink.Merge.Pieces.{
  options_of, AgreesWith, all_results, all_details, merge_execution_responses_lem,
}

abbrev messages : Messages ℕ ℕ
messages = record {
  default_options = 0;
  default_version = 0;
  same_options = λ a b. a == b;
  same_version = λ a b. a == b;
  options_text = λ o. "";
  version_text = λ v. "";
}

abbrev response : ℕ → Option ℕ → ExecutionResponse ℕ ℕ ℕ ℕ
response result e = record {
  execution_id = "a";
  error_detail = e;
  output = record { options = some 7; timestamp = 1; version = 2; results = result ∷ [] };
}

abbrev responses : List (ExecutionResponse ℕ ℕ ℕ ℕ)
responses = response 10 none ∷ response 11 (some 99) ∷ []

abbrev merged : Aggregate ℕ ℕ ℕ ℕ
merged = record {
  execution_id = "a";
  details = 99 ∷ [];
  output = record { options = some 7; timestamp = 1; version = 2; results = 10 ∷ 11 ∷ [] };
}

merge_execution_responses_lem_example :
    (first : ExecutionResponse ℕ ℕ ℕ ℕ) × (rest : List (ExecutionResponse ℕ ℕ ℕ ℕ)) × (responses
      ≡ first ∷ rest)
    × All (λ r. r.execution_id ≡ "a") responses
    × All (AgreesWith messages first) rest
    × (merged.execution_id ≡ "a")
    × (merged.details ≡ all_details responses)
    × (merged.output.options ≡ some (options_of messages first))
    × (merged.output.version ≡ first.output.version)
    × (merged.output.results ≡ all_results responses)
unfolding merge_execution_responses
merge_execution_responses_lem_example =
    merge_execution_responses_lem messages "a" responses merged refl
