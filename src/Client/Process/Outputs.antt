-- ===== src/Client/Process/Outputs.antt =====
-- The outputs of user defined plugins, from all workers: collectUserDefinedOutputs() and
-- compileGlobalUserDefinedPluginOutputs(), source/client/process_impl.cc.
pub mod Global
use nighthawk.Base.{
  ℕ, ◌≡◌, refl, sym, ap, ap₂, ◌∙◌, subst, Bool, true, false, if◌then◌else◌, Bool-cases, inl, inr,
  List, [], ◌∷◌, ◌++◌, map, append_assoc, Option, none, some, String, arith,
}
use nighthawk.Base.Chars.{Chars, eq_chars, eq_chars→≡}
use nighthawk.Base.Status
use nighthawk.Base.Status.{StatusOr, Error}

-- UserDefinedOutput: a typed output, or an error message.
pub data PluginResult (T : Type 0) : Type 0 where
  typed_output : T → PluginResult T
  error_message : String → PluginResult T

pub record UserDefinedOutput (T : Type 0) : Type 0 where
  pub plugin_name : Chars
  pub result : PluginResult T

-- UserDefinedOutputPluginFactory: name() and AggregateGlobalOutput().
pub record PluginFactory (T : Type 0) : Type 0 where
  pub name : Chars
  pub aggregate_global_output : List (UserDefinedOutput T) → StatusOr T

abbrev pub OutputsByPlugin : Type 0 → Type 0
OutputsByPlugin T = List (Chars × List (UserDefinedOutput T))

module _ {T : Type 0} where
  unfoldable pub collect_one : OutputsByPlugin T → UserDefinedOutput T → OutputsByPlugin T
  collect_one [] o = (o.plugin_name, o ∷ []) ∷ []
  collect_one ((name, outputs) ∷ by_plugin) o =
      let rest = collect_one by_plugin o in
      if eq_chars o.plugin_name name
      then (name, outputs ++ (o ∷ [])) ∷ by_plugin
      else (name, outputs) ∷ rest

  unfoldable pub collect_user_defined_outputs :
      OutputsByPlugin T → List (UserDefinedOutput T) → OutputsByPlugin T
  unfolding collect_one
  collect_user_defined_outputs by_plugin [] = by_plugin
  collect_user_defined_outputs by_plugin (o ∷ outputs) =
      collect_user_defined_outputs (collect_one by_plugin o) outputs

  -- The calls for the workers, in their order.
  unfoldable pub collect_workers :
      OutputsByPlugin T → List (List (UserDefinedOutput T)) → OutputsByPlugin T
  unfolding collect_user_defined_outputs
  collect_workers by_plugin [] = by_plugin
  collect_workers by_plugin (outputs ∷ workers) =
      collect_workers (collect_user_defined_outputs by_plugin outputs) workers

  unfoldable pub find_outputs : Chars → OutputsByPlugin T → Option (List (UserDefinedOutput T))
  find_outputs name [] = none
  find_outputs name ((k, outputs) ∷ by_plugin) =
      let rest = find_outputs name by_plugin in if eq_chars name k then some outputs else rest

  -- `to_text` is absl::Status::ToString().
  module _ (to_text : Error → String) where
    unfoldable pub aggregated : StatusOr T → PluginResult T
    aggregated (Status.ok output) = typed_output output
    aggregated (Status.error e) = error_message (to_text e)

    unfoldable pub global_output :
        PluginFactory T → Option (List (UserDefinedOutput T)) → UserDefinedOutput T
    unfolding aggregated
    global_output factory none = record {
      plugin_name = factory.name;
      result =
          error_message "No per worker outputs found for a factory when performing aggregation";
    }
    global_output factory (some outputs) = record {
      plugin_name = factory.name;
      result = aggregated (factory.aggregate_global_output outputs);
    }

    unfoldable pub compile_global_outputs :
        OutputsByPlugin T → List (PluginFactory T) → List (UserDefinedOutput T)
    unfolding global_output find_outputs
    compile_global_outputs by_plugin [] = []
    compile_global_outputs by_plugin (factory ∷ factories) =
        global_output factory (find_outputs factory.name by_plugin)
        ∷ compile_global_outputs by_plugin factories

  -- The outputs of one plugin, among those of all workers.
  abbrev pub of_plugin : Chars → List (UserDefinedOutput T) → List (UserDefinedOutput T)
  of_plugin name [] = []
  of_plugin name (o ∷ outputs) =
      let rest = of_plugin name outputs in if eq_chars name o.plugin_name then o ∷ rest else rest

  abbrev pub all_outputs : List (List (UserDefinedOutput T)) → List (UserDefinedOutput T)
  all_outputs [] = []
  all_outputs (outputs ∷ workers) = outputs ++ all_outputs workers

  abbrev pub unless_empty : List (UserDefinedOutput T) → Option (List (UserDefinedOutput T))
  unless_empty [] = none
  unless_empty (o ∷ outputs) = some (o ∷ outputs)
