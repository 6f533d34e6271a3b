-- ===== src/Client/Process/Results/Tests.antt =====
-- Concrete workers.
use nighthawk.Base.{
  ℕ, ◌+◌, ◌/◌, ◌≡◌, refl, false, List, [], ◌∷◌, ◌++◌, map, length, Option, some, none, String,
}
use nighthawk.Base.Result.{ok}
use nighthawk.Common.Statistic.Merge.{StatisticClass, merge_worker_statistics}
use nighthawk.Client.Process.Outputs.{collect_workers, compile_global_outputs}
use nighthawk.Client.Process.Results.{ClientWorker, Added, collect_results}
use nighthawk.Client.Process.Results.Earliest.{IsEarliest}
use nighthawk.Client.Process.Results.Totals.{collect_results_lem, total, times, numbered}

-- A statistic is its name and its sum.
abbrev sums : StatisticClass (String × ℕ)
sums = record {
  create_new_instance_of_same_type = λ s. (s.0, 0);
  combine = λ a b. (a.0, a.1 + b.1);
  set_id = λ name s. (name, s.1);
  id = λ s. s.0;
}

abbrev worker : ℕ → Option ℕ → ClientWorker (String × ℕ) ℕ
worker duration first = record {
  execution_duration = duration;
  first_acquisition_time = first;
  user_defined_outputs = [];
  statistics = ("latency", ("latency", duration)) ∷ [];
  thread_local_counter_values = ("benchmark.http_2xx", duration) ∷ [];
}

abbrev workers : List (ClientWorker (String × ℕ) ℕ)
workers = worker 4 (some 7) ∷ worker 8 (some 5) ∷ worker 6 none ∷ []

abbrev digit : ℕ → String
digit n = "n"

abbrev results : List (Added (String × ℕ) ℕ)
results =
    numbered sums digit 0 workers
    ++ (record {
      name = "global";
      statistics = ("latency", 18) ∷ [];
      counters = ("sequencer.failed_terminations", 1) ∷ [];
      execution_duration = 6;
      first_acquisition_time = some 5;
      user_defined_outputs = [];
    }
        ∷ [])

collected :
    collect_results sums digit
      (λ e. e.message)
      []
      (("sequencer.failed_terminations", 1) ∷ [])
      workers
    ≡ ok (false, results)
unfolding collect_results merge_worker_statistics compile_global_outputs
collected = refl

merged : merge_worker_statistics sums (map (λ w. w.statistics) workers) ≡ ok (("latency", 18) ∷ [])
unfolding merge_worker_statistics
merged = refl

collect_results_lem_example :
    (global : Added (String × ℕ) ℕ) × (collect_results sums digit
        (λ e. e.message)
        []
        (("sequencer.failed_terminations", 1) ∷ [])
        workers
      ≡ ok (false, numbered sums digit 0 workers ++ (global ∷ [])))
    × (global.statistics ≡ ("latency", 18) ∷ [])
    × (global.counters ≡ ("sequencer.failed_terminations", 1) ∷ [])
    × (global.execution_duration ≡ total workers / length workers)
    × IsEarliest global.first_acquisition_time (times workers)
    × (global.user_defined_outputs
        ≡ compile_global_outputs
            (λ e. e.message)
            (collect_workers [] (map (λ w. w.user_defined_outputs) workers))
            [])
collect_results_lem_example =
    collect_results_lem sums digit (λ e. e.message) [] (("sequencer.failed_terminations", 1) ∷ [])
      (worker 4 (some 7)) (worker 8 (some 5) ∷ worker 6 none ∷ []) (("latency", 18) ∷ []) merged
