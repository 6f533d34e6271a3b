-- ===== src/Client/Process/Results.antt =====
-- The collection of the results after the workers have ended: ProcessImpl::runInternal(),
-- source/client/process_impl.cc. The collector is the list of its results; the counters of the store
-- are given, as mapCountersFromStore() returns them.
pub mod Earliest
pub mod Totals
mod Tests
use text.Mathlib.Text.{◌==◌ as str_eq}
use nighthawk.Base.{
  ℕ, ◌+◌, ◌/◌, min, Bool, true, false, not, ◌||◌, if◌then◌else◌, ltb, List, [], ◌∷◌, ◌++◌, map,
  length, Option, none, some, String,
}
use nighthawk.Base.Text.{str_cat}
use nighthawk.Base.Status.{Error}
use nighthawk.Base.Result.{Result, ok, ◌>>=◌}
use nighthawk.Common.Statistic.Merge.{StatisticClass, vectorize, merge_worker_statistics}
use nighthawk.Client.Process.Outputs.{
  UserDefinedOutput, PluginFactory, OutputsByPlugin, collect_user_defined_outputs,
  compile_global_outputs,
}

-- What the main thread reads of a worker and of its sequencer.
pub record ClientWorker (S T : Type 0) : Type 0 where
  pub execution_duration : ℕ
  pub first_acquisition_time : Option ℕ
  pub user_defined_outputs : List (UserDefinedOutput T)
  pub statistics : List (String × S)
  pub thread_local_counter_values : List (String × ℕ)

-- The arguments of addResult().
pub record Added (S T : Type 0) : Type 0 where
  pub name : String
  pub statistics : List S
  pub counters : List (String × ℕ)
  pub execution_duration : ℕ
  pub first_acquisition_time : Option ℕ
  pub user_defined_outputs : List (UserDefinedOutput T)

-- The locals of the loop over the workers, and the collector.
pub record Collection (S T : Type 0) : Type 0 where
  pub i : ℕ
  pub total_execution_duration : ℕ
  pub first_acquisition_time : Option ℕ
  pub user_defined_outputs_by_plugin : OutputsByPlugin T
  pub collector : List (Added S T)

unfoldable pub earlier : Option ℕ → Option ℕ → Option ℕ
earlier first none = first
earlier none (some worker) = some worker
earlier (some first) (some worker) = some (min first worker)

abbrev pub has_counter : String → List (String × ℕ) → Bool
has_counter name [] = false
has_counter name ((n, value) ∷ counters) = str_eq n name || has_counter name counters

abbrev pub nothing_collected : {S T : Type 0} → Collection S T
nothing_collected = record {
  i = 0;
  total_execution_duration = 0;
  first_acquisition_time = none;
  user_defined_outputs_by_plugin = [];
  collector = [];
}

abbrev pub global_result :
    {S T : Type 0}
    → ℕ
    → List S
    → List (String × ℕ)
    → List (UserDefinedOutput T)
    → Collection S T
    → Added S T
global_result size merged counters outputs s = record {
  name = "global";
  statistics = merged;
  counters = counters;
  execution_duration = s.total_execution_duration / size;
  first_acquisition_time = s.first_acquisition_time;
  user_defined_outputs = outputs;
}

-- `number_text` is the text of a number.
module _ {S T : Type 0} (c : StatisticClass S) (number_text : ℕ → String) where
  unfoldable pub worker_result : ℕ → ClientWorker S T → Added S T
  worker_result i w = record {
    name = str_cat ("worker_" ∷ number_text i ∷ []);
    statistics = vectorize c w.statistics;
    counters = w.thread_local_counter_values;
    execution_duration = w.execution_duration;
    first_acquisition_time = w.first_acquisition_time;
    user_defined_outputs = w.user_defined_outputs;
  }

  -- One round of the loop; `many` tells if there is more than one worker.
  unfoldable pub collect_worker : Bool → ClientWorker S T → Collection S T → Collection S T
  unfolding earlier worker_result collect_user_defined_outputs
  collect_worker many w s = record {
    i = s.i + 1;
    total_execution_duration = s.total_execution_duration + w.execution_duration;
    first_acquisition_time = earlier s.first_acquisition_time w.first_acquisition_time;
    user_defined_outputs_by_plugin =
        collect_user_defined_outputs s.user_defined_outputs_by_plugin w.user_defined_outputs;
    collector = if many then s.collector ++ (worker_result s.i w ∷ []) else s.collector;
  }

  unfoldable pub collect_all : Bool → List (ClientWorker S T) → Collection S T → Collection S T
  unfolding collect_worker
  collect_all many [] s = s
  collect_all many (w ∷ workers) s = collect_all many workers (collect_worker many w s)

  -- The global result, if there are workers.
  unfoldable pub add_global :
      List (ClientWorker S T)
      → List (String × ℕ)
      → List (UserDefinedOutput T)
      → Collection S T
      → Result (List (Added S T))
  add_global [] counters outputs s = ok s.collector
  add_global (w ∷ workers) counters outputs s =
      merge_worker_statistics c (map (λ x. x.statistics) (w ∷ workers)) >>= λ merged.
      ok (s.collector ++ (global_result (length (w ∷ workers)) merged counters outputs s ∷ []))

  -- What runInternal() returns, with the results of the collector.
  unfoldable pub collect_results :
      (Error → String)
      → List (PluginFactory T)
      → List (String × ℕ)
      → List (ClientWorker S T)
      → Result (Bool × List (Added S T))
  unfolding collect_all add_global
  collect_results to_text factories counters workers =
      let s = collect_all (ltb 1 (length workers)) workers nothing_collected in
      add_global workers counters
        (compile_global_outputs to_text s.user_defined_outputs_by_plugin factories) s
      >>= λ collector. ok (not (has_counter "sequencer.failed_terminations" counters), collector)
