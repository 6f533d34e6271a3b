-- ===== src/Sink/Merge.antt =====
-- mergeOutput() and mergeExecutionResponses(), source/sink/service_impl.cc.
pub mod Pieces
mod Tests
use text.Mathlib.Text.{◌==◌ as str_eq}
use nighthawk.Base.{
  ℕ, Bool, true, false, if◌then◌else◌, List, [], ◌∷◌, ◌++◌, Option, none, some, String,
}
use nighthawk.Base.Text.{str_cat}
use nighthawk.Base.Status.{StatusOr, ok, error, internal, not_found, fail_with, ◌>>=◌}

-- nighthawk.client.Output with options `O`, versions `V` and results `R`.
pub record Output (O V R : Type 0) : Type 0 where
  pub options : Option O
  pub timestamp : ℕ
  pub version : V
  pub results : List R

-- A response of one execution, with error details `E`.
pub record ExecutionResponse (O V R E : Type 0) : Type 0 where
  pub execution_id : String
  pub error_detail : Option E
  pub output : Output O V R

-- The aggregated response: its error detail is set if it has details, with a fixed code and text.
pub record Aggregate (O V R E : Type 0) : Type 0 where
  pub execution_id : String
  pub details : List E
  pub output : Output O V R

-- What protobuf gives: the message that stands for unset options, MessageDifferencer::Equivalent()
-- and the text of a message.
pub record Messages (O V : Type 0) : Type 0 where
  pub default_options : O
  pub default_version : V
  pub same_options : O → O → Bool
  pub same_version : V → V → Bool
  pub options_text : O → String
  pub version_text : V → String

abbrev pub options_or : {O : Type 0} → O → Option O → O
options_or default none = default
options_or default (some o) = o

abbrev pub details_of : {E : Type 0} → Option E → List E
details_of none = []
details_of (some e) = e ∷ []

-- The aggregated output before the first response.
abbrev pub nothing_yet : {O V R : Type 0} → Messages O V → Output O V R
nothing_yet messages = record {
  options = none;
  timestamp = 0;
  version = messages.default_version;
  results = [];
}

module _ {O V R : Type 0} (messages : Messages O V) where
  open messages use {default_options, same_options, same_version, options_text, version_text}

  unfoldable pub append_results : Output O V R → Output O V R → Output O V R
  append_results input target = record target { results = target.results ++ input.results }

  -- The options and the version of the target are there already.
  unfoldable pub merge_checked : O → Output O V R → Output O V R → StatusOr (Output O V R)
  unfolding append_results
  merge_checked options input target =
      if same_options (options_or default_options input.options) options
      then (if same_version input.version target.version
          then ok (append_results input target)
          else fail_with internal (
              str_cat (
                "Version divergence detected: "
                ∷ version_text target.version
                ∷ " vs "
                ∷ version_text input.version
                ∷ "."
                ∷ [])))
      else fail_with internal (
          str_cat (
            "Options divergence detected: "
            ∷ options_text options
            ∷ " vs "
            ∷ options_text (options_or default_options input.options)
            ∷ "."
            ∷ []))

  -- mergeOutput(), given the options of the target.
  unfoldable pub merge_into : Option O → Output O V R → Output O V R → StatusOr (Output O V R)
  unfolding merge_checked append_results
  merge_into none input target = ok (
      append_results input (record target {
        options = some (options_or default_options input.options);
        timestamp = input.timestamp;
        version = input.version;
      }))
  merge_into (some options) input target = merge_checked options input target

  unfoldable pub merge_output : Output O V R → Output O V R → StatusOr (Output O V R)
  unfolding merge_into
  merge_output input target = merge_into target.options input target

module _ {O V R E : Type 0} (messages : Messages O V) where
  -- One response's turn, with the details and the output so far.
  unfoldable pub merge_response :
      String → ExecutionResponse O V R E → List E × Output O V R → StatusOr (List E × Output O V R)
  unfolding merge_output
  merge_response id r (details, target) =
      if str_eq r.execution_id id
      then (merge_output messages r.output target >>= λ merged.
          ok (details ++ details_of r.error_detail, merged))
      else fail_with internal
          (str_cat ("Expected execution_id '" ∷ id ∷ "' got '" ∷ r.execution_id ∷ "'" ∷ []))

  unfoldable pub merge_all :
      String
      → List (ExecutionResponse O V R E)
      → StatusOr (List E × Output O V R)
      → StatusOr (List E × Output O V R)
  unfolding merge_response
  merge_all id [] so_far = so_far
  merge_all id (r ∷ rs) so_far = merge_all id rs (so_far >>= merge_response id r)

  -- mergeExecutionResponses(); the loop goes over the responses after an error as well here, and
  -- keeps it.
  unfoldable pub merge_execution_responses :
      String → List (ExecutionResponse O V R E) → StatusOr (Aggregate O V R E)
  unfolding merge_all
  merge_execution_responses id [] = fail_with not_found "No results"
  merge_execution_responses id (r ∷ rs) =
      merge_all id (r ∷ rs) (ok ([], nothing_yet messages)) >>= λ a.
      ok (record { execution_id = id; details = a.0; output = a.1 })
