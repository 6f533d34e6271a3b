-- ===== src/Client/Process/Results/Totals.antt =====
-- What the collected results add up to: source/client/process_impl.cc.
use nighthawk.Base.{
  ℕ, ◌+◌, ◌/◌, ◌≡◌, refl, sym, ap, ◌∙◌, Bool, true, false, not, if◌then◌else◌, ltb, List, [], ◌∷◌,
  ◌++◌, map, append_assoc, append-nil, length, Option, String, arith,
}
use nighthawk.Base.Status.{Error}
use nighthawk.Base.Result.{ok}
use nighthawk.Common.Statistic.Merge.{StatisticClass, merge_worker_statistics}
use nighthawk.Client.Process.Outputs.{PluginFactory, collect_workers, compile_global_outputs}
use nighthawk.Client.Process.Results.{
  ClientWorker, Added, Collection, has_counter, worker_result, collect_worker, collect_all,
  nothing_collected, global_result, add_global, collect_results,
}
use nighthawk.Client.Process.Results.Earliest.{
  IsEarliest, IsEarliest-earlier, IsEarliest-first, IsEarliest-none,
}

abbrev pub total : {S T : Type 0} → List (ClientWorker S T) → ℕ
total [] = 0
total (w ∷ workers) = w.execution_duration + total workers

abbrev pub times : {S T : Type 0} → List (ClientWorker S T) → List (Option ℕ)
times workers = map (λ w. w.first_acquisition_time) workers

module _ {S T : Type 0} (c : StatisticClass S) (number_text : ℕ → String) where
  -- The results of the workers, numbered from `i` on.
  abbrev pub numbered : ℕ → List (ClientWorker S T) → List (Added S T)
  numbered i [] = []
  numbered i (w ∷ workers) = worker_result c number_text i w ∷ numbered (i + 1) workers

  abbrev collected : Bool → List (ClientWorker S T) → Collection S T → Collection S T
  collected many workers s = collect_all c number_text many workers s

  total-collect :
      (many : Bool) (workers : List (ClientWorker S T)) (s : Collection S T)
      → (collected many workers s).total_execution_duration
        ≡ s.total_execution_duration + total workers
  unfolding collect_all collect_worker
  total-collect many [] s = omega arith
  total-collect many (w ∷ workers) s =
      omega (arith, total-collect many workers (collect_worker c number_text many w s))

  collector-collect :
      (many : Bool) (workers : List (ClientWorker S T)) (s : Collection S T)
      → (collected many workers s).collector
        ≡ s.collector ++ (if many then numbered s.i workers else [])
  unfolding collect_all collect_worker
  collector-collect true [] s = sym (append-nil s.collector)
  collector-collect false [] s = sym (append-nil s.collector)
  collector-collect true (w ∷ workers) s =
      collector-collect true workers (collect_worker c number_text true w s)
      ∙ append_assoc s.collector _ _
  collector-collect false (w ∷ workers) s =
      collector-collect false workers (collect_worker c number_text false w s)

  IsEarliest-collect :
      (many : Bool) (workers : List (ClientWorker S T)) (s : Collection S T)
      → IsEarliest
          (collected many workers s).first_acquisition_time
          (s.first_acquisition_time ∷ times workers)
  unfolding collect_all collect_worker
  IsEarliest-collect many [] s = IsEarliest-first s.first_acquisition_time
  IsEarliest-collect many (w ∷ workers) s =
      IsEarliest-earlier _ s.first_acquisition_time w.first_acquisition_time (times workers)
        (IsEarliest-collect many workers (collect_worker c number_text many w s))

  outputs-collect :
      (many : Bool) (workers : List (ClientWorker S T)) (s : Collection S T)
      → (collected many workers s).user_defined_outputs_by_plugin
        ≡ collect_workers s.user_defined_outputs_by_plugin
            (map (λ w. w.user_defined_outputs) workers)
  unfolding collect_all collect_worker collect_workers
  outputs-collect many [] s = refl
  outputs-collect many (w ∷ workers) s =
      outputs-collect many workers (collect_worker c number_text many w s)

  total-collected :
      (many : Bool) (workers : List (ClientWorker S T))
      → (collected many workers nothing_collected).total_execution_duration ≡ total workers
  total-collected many workers = omega (arith, total-collect many workers nothing_collected)

  -- If there is a worker, and the statistics of the workers can be merged, then the results of the
  -- workers are added, for more than one worker, numbered from 0 in their order, and after them a
  -- global result. It has the merged statistics, the mean of the execution durations, the earliest of
  -- the first acquisitions, the counters of the store, and the outputs that the factories make of those
  -- of all workers. The run is a success unless there is a counter sequencer.failed_terminations.
  pub collect_results_lem :
      (to_text : Error → String) (factories : List (PluginFactory T)) (counters : List (String × ℕ))
      (worker : ClientWorker S T) (others : List (ClientWorker S T)) (merged : List S)
      → merge_worker_statistics c (map (λ w. w.statistics) (worker ∷ others)) ≡ ok merged
      → (global : Added S T) × (collect_results c number_text to_text factories counters
            (worker ∷ others)
          ≡ ok (
            not (has_counter "sequencer.failed_terminations" counters),
            (if ltb 1 (length (worker ∷ others)) then numbered 0 (worker ∷ others) else [])
                ++ (global ∷ []),
          ))
        × (global.statistics ≡ merged)
        × (global.counters ≡ counters)
        × (global.execution_duration ≡ total (worker ∷ others) / length (worker ∷ others))
        × IsEarliest global.first_acquisition_time (times (worker ∷ others))
        × (global.user_defined_outputs
            ≡ compile_global_outputs to_text
                (collect_workers [] (map (λ w. w.user_defined_outputs) (worker ∷ others)))
                factories)
  unfolding collect_results add_global
  collect_results_lem to_text factories counters worker others merged found =
      let workers = worker ∷ others in
      let many = ltb 1 (length workers) in
      let s = collected many workers nothing_collected in
      let outputs = compile_global_outputs to_text s.user_defined_outputs_by_plugin factories in
      let global = global_result (length workers) merged counters outputs s in
      (
        global,
        rw found (
            ap
              (λ before. ok (
                not (has_counter "sequencer.failed_terminations" counters),
                before ++ (global ∷ []),
              ))
              (collector-collect many workers nothing_collected)),
        refl,
        refl,
        ap (λ d. d / length workers) (total-collected many workers),
        IsEarliest-none s.first_acquisition_time (times workers)
            (IsEarliest-collect many workers nothing_collected),
        ap (λ by_plugin. compile_global_outputs to_text by_plugin factories)
            (outputs-collect many workers nothing_collected),
      )
