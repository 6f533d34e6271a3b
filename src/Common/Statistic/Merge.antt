-- ===== src/Common/Statistic/Merge.antt =====
-- The statistics of all workers together: ProcessImpl::mergeWorkerStatistics() and
-- vectorizeStatisticPtrMap(), source/client/process_impl.cc.
pub mod Values
use nighthawk.Base.{
  ℕ, ◌≡◌, refl, sym, ap, ◌∙◌, subst, Bool, true, false, List, [], ◌∷◌, ◌++◌, map, String, All,
}
use nighthawk.Base.Result.{Result, ok, err, abort, ◌>>=◌}

-- The virtual methods of Statistic that the merge calls.
pub record StatisticClass (S : Type 0) : Type 0 where
  pub create_new_instance_of_same_type : S → S
  pub combine : S → S → S
  pub set_id : String → S → S
  pub id : S → String

-- What a class has to keep for the merge: `Shows values s` says that `s` is a statistic of `values`.
pub record ClassLaws {S : Type 0} (c : StatisticClass S) (Shows : List ℕ → S → Type 0)
    : Type 0 where
  pub new_shows : (s : S) → Shows [] (c.create_new_instance_of_same_type s)
  pub combine_shows :
      (values more : List ℕ) (a b : S)
      → Shows values a
      → Shows more b
      → Shows (values ++ more) (c.combine a b)
  pub set_id_shows :
      (name : String) (values : List ℕ) (s : S) → Shows values s → Shows values (c.set_id name s)
  pub id-set_id : (name : String) (s : S) → c.id (c.set_id name s) ≡ name

module _ {S : Type 0} (c : StatisticClass S) where
  -- vectorizeStatisticPtrMap()
  unfoldable pub vectorize : List (String × S) → List S
  vectorize [] = []
  vectorize ((name, s) ∷ statistics) =
      c.set_id name (c.combine (c.create_new_instance_of_same_type s) s) ∷ vectorize statistics

  -- The new instances, one for each statistic of the first worker.
  unfoldable pub new_instances : List (String × S) → List S
  new_instances [] = []
  new_instances ((name, s) ∷ statistics) =
      c.set_id name (c.create_new_instance_of_same_type s) ∷ new_instances statistics

  -- One worker into the merged statistics. A worker with more statistics than the first is an access
  -- out of range, taken for the end of the process.
  unfoldable pub merge_worker : List S → List (String × S) → Result (List S)
  merge_worker merged [] = ok merged
  merge_worker [] (entry ∷ statistics) = err abort
  merge_worker (m ∷ merged) ((name, s) ∷ statistics) =
      merge_worker merged statistics >>= λ rest. ok (c.set_id (c.id m) (c.combine m s) ∷ rest)

  unfoldable pub merge_workers : List S → List (List (String × S)) → Result (List S)
  unfolding merge_worker
  merge_workers merged [] = ok merged
  merge_workers merged (worker ∷ workers) =
      merge_worker merged worker >>= λ merged'. merge_workers merged' workers

  -- mergeWorkerStatistics()
  unfoldable pub merge_worker_statistics : List (List (String × S)) → Result (List S)
  unfolding merge_workers new_instances
  merge_worker_statistics [] = merge_workers [] []
  merge_worker_statistics (first ∷ workers) = merge_workers (new_instances first) (first ∷ workers)

-- The values that all workers saw, one list for each statistic.
abbrev pub zip_append : List (List ℕ) → List (List ℕ) → List (List ℕ)
zip_append (values ∷ acc) (more ∷ row) = (values ++ more) ∷ zip_append acc row
zip_append acc row = []

abbrev pub gather : List (List ℕ) → List (List (List ℕ)) → List (List ℕ)
gather acc [] = acc
gather acc (row ∷ rows) = gather (zip_append acc row) rows

module _ {S : Type 0} (Shows : List ℕ → S → Type 0) where
  -- A worker's statistics have the given names and values.
  abbrev pub ShowsWorker : List String → List (List ℕ) → List (String × S) → Type 0
  ShowsWorker [] [] [] = Unit
  ShowsWorker (n ∷ names) (values ∷ row) ((name, s) ∷ statistics) =
      (name ≡ n) × Shows values s × ShowsWorker names row statistics
  ShowsWorker names row statistics = true ≡ false

  abbrev pub ShowsWorkers : List String → List (List (List ℕ)) → List (List (String × S)) → Type 0
  ShowsWorkers names [] [] = Unit
  ShowsWorkers names (row ∷ rows) (worker ∷ workers) =
      ShowsWorker names row worker × ShowsWorkers names rows workers
  ShowsWorkers names rows workers = true ≡ false

  module _ (c : StatisticClass S) where
    abbrev pub ShowsMerged : List String → List (List ℕ) → List S → Type 0
    ShowsMerged [] [] [] = Unit
    ShowsMerged (n ∷ names) (values ∷ row) (s ∷ merged) =
        (c.id s ≡ n) × Shows values s × ShowsMerged names row merged
    ShowsMerged names row merged = true ≡ false
