-- ===== src/Common/Statistic/Merge/Values.antt =====
-- The merged statistics and the values that the workers saw: source/client/process_impl.cc.
use nighthawk.Base.{ℕ, ◌≡◌, refl, ◌∙◌, List, [], ◌∷◌, ◌++◌, map, String, arith}
use nighthawk.Base.Result.{ok}
use nighthawk.Common.Statistic.Merge.{
  StatisticClass, ClassLaws, new_instances, merge_worker, merge_workers, merge_worker_statistics,
  zip_append, gather, ShowsWorker, ShowsWorkers, ShowsMerged,
}

module _ {S : Type 0} (c : StatisticClass S) (Shows : List ℕ → S → Type 0)
    (laws : ClassLaws c Shows) where
  new_instances-ShowsMerged :
      (names : List String) (row : List (List ℕ)) (worker : List (String × S))
      → ShowsWorker Shows names row worker
      → ShowsMerged Shows c names (map (λ values. []) row) (new_instances c worker)
  unfolding new_instances
  new_instances-ShowsMerged [] [] [] h = tt
  new_instances-ShowsMerged [] [] (entry ∷ worker) h = ground (arith, h)
  new_instances-ShowsMerged [] (values ∷ row) worker h = ground (arith, h)
  new_instances-ShowsMerged (n ∷ names) [] worker h = ground (arith, h)
  new_instances-ShowsMerged (n ∷ names) (values ∷ row) [] h = ground (arith, h)
  new_instances-ShowsMerged (n ∷ names) (values ∷ row) ((name, s) ∷ worker) (same, shown, rest) = (
    laws.id-set_id name _ ∙ same,
    laws.set_id_shows name [] _ (laws.new_shows s),
    new_instances-ShowsMerged names row worker rest,
  )

  merge_worker-ShowsMerged :
      (names : List String) (acc row : List (List ℕ)) (merged : List S) (worker : List (String × S))
      → ShowsMerged Shows c names acc merged
      → ShowsWorker Shows names row worker
      → (r : List S) × (merge_worker c merged worker ≡ ok r)
        × ShowsMerged Shows c names (zip_append acc row) r
  unfolding merge_worker
  merge_worker-ShowsMerged [] [] [] [] [] g h = ([], refl, tt)
  merge_worker-ShowsMerged [] [] row (m ∷ merged) worker g h = absurd (ground (arith, g))
  merge_worker-ShowsMerged [] (values ∷ acc) row merged worker g h = absurd (ground (arith, g))
  merge_worker-ShowsMerged [] [] [] [] (entry ∷ worker) g h = absurd (ground (arith, h))
  merge_worker-ShowsMerged [] [] (more ∷ row) [] worker g h = absurd (ground (arith, h))
  merge_worker-ShowsMerged (n ∷ names) [] row merged worker g h = absurd (ground (arith, g))
  merge_worker-ShowsMerged (n ∷ names) (values ∷ acc) row [] worker g h = absurd (ground (arith, g))
  merge_worker-ShowsMerged (n ∷ names) (values ∷ acc) [] (m ∷ merged) worker g h =
      absurd (ground (arith, h))
  merge_worker-ShowsMerged (n ∷ names) (values ∷ acc) (more ∷ row) (m ∷ merged) [] g h =
      absurd (ground (arith, h))
  merge_worker-ShowsMerged (n ∷ names) (values ∷ acc) (more ∷ row) (m ∷ merged) ((name, s) ∷ worker)
        (named, old, gs) (same, shown, hs) =
      let (r, made, rest) = merge_worker-ShowsMerged names acc row merged worker gs hs in
      (
        c.set_id (c.id m) (c.combine m s) ∷ r,
        rw made refl,
        (
          laws.id-set_id (c.id m) _ ∙ named,
          laws.set_id_shows (c.id m) (values ++ more) _
              (laws.combine_shows values more m s old shown),
          rest,
        ),
      )

  merge_workers-ShowsMerged :
      (names : List String) (acc : List (List ℕ)) (rows : List (List (List ℕ))) (merged : List S)
      (workers : List (List (String × S)))
      → ShowsMerged Shows c names acc merged
      → ShowsWorkers Shows names rows workers
      → (r : List S) × (merge_workers c merged workers ≡ ok r)
        × ShowsMerged Shows c names (gather acc rows) r
  unfolding merge_workers
  merge_workers-ShowsMerged names acc [] merged [] g h = (merged, refl, g)
  merge_workers-ShowsMerged names acc [] merged (worker ∷ workers) g h = absurd (ground (arith, h))
  merge_workers-ShowsMerged names acc (row ∷ rows) merged [] g h = absurd (ground (arith, h))
  merge_workers-ShowsMerged names acc (row ∷ rows) merged (worker ∷ workers) g (h, hs) =
      let (r, made, shown) = merge_worker-ShowsMerged names acc row merged worker g h in
      let (all, merged_all, shown_all) =
        merge_workers-ShowsMerged names (zip_append acc row) rows r workers shown hs in
      (all, rw made merged_all, shown_all)

  -- When all workers have statistics of the same names, in the same order, the merge succeeds. Each
  -- merged statistic has its name, and is a statistic of the values that all workers saw for it, one
  -- worker after the other, for every class of statistics that keeps the laws.
  pub merge_worker_statistics_lem :
      (names : List String) (row : List (List ℕ)) (rows : List (List (List ℕ)))
      (first : List (String × S)) (workers : List (List (String × S)))
      → ShowsWorkers Shows names (row ∷ rows) (first ∷ workers)
      → (merged : List S) × (merge_worker_statistics c (first ∷ workers) ≡ ok merged)
        × ShowsMerged Shows c names (gather (map (λ values. []) row) (row ∷ rows)) merged
  unfolding merge_worker_statistics
  merge_worker_statistics_lem names row rows first workers h =
      merge_workers-ShowsMerged names (map (λ values. []) row) (row ∷ rows) (new_instances c first)
        (first ∷ workers) (new_instances-ShowsMerged names row first h.0) h
