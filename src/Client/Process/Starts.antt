-- ===== src/Client/Process/Starts.antt =====
-- When the workers start: computeFirstWorkerStart(), computeInterWorkerDelay() and createWorkers(),
-- source/client/process_impl.cc. Times are in nanoseconds; the delay between two workers, a double
-- in the source, is computed exactly and rounded down.
pub mod Order
use nighthawk.Base.{
  ℕ, zero, suc, ◌+◌, ◌-◌, ◌*◌, ◌/◌, ◌≤◌, ◌<◌, ◌≡◌, refl, Bool, true, false, if◌then◌else◌, List, [],
  ◌∷◌, ◌++◌, map, All, length, Option, none, some, arith,
}
use nighthawk.Base.Status
use nighthawk.Base.Status.{StatusOr}
use nighthawk.Common.RateLimiter.{Now}

-- A scheduled start in the past gives a first start before now: the difference may be negative, and
-- it is added to the monotonic time first. A first start before the boot of the clock would be 0 here;
-- a run with a scheduled start in the past is refused before the workers are created.
unfoldable pub compute_first_worker_start : Now → Option ℕ → ℕ → ℕ
compute_first_worker_start now none concurrency =
    now.monotonic_time + (500000000 + concurrency * 50000000)
compute_first_worker_start now (some scheduled_start) concurrency =
    (now.monotonic_time + scheduled_start) - now.system_time

unfoldable pub compute_inter_worker_delay : ℕ → ℕ → ℕ
compute_inter_worker_delay concurrency rps = 1000000000 / (rps * concurrency)

-- `create_plugins` is createUserDefinedOutputPlugins() for a worker, and `create_worker` makes a
-- worker of its number, its starting time and its plugins.
module _ {P W : Type 0} (create_plugins : ℕ → StatusOr P) (create_worker : ℕ → ℕ → P → W) where
  -- A worker before those that are created after it, unless its plugins fail or one of theirs. On a
  -- failure the source keeps the workers before it, which never start.
  unfoldable pub add_worker : ℕ → ℕ → StatusOr P → StatusOr (List W) → StatusOr (List W)
  add_worker number start (Status.error e) rest = Status.error e
  add_worker number start (Status.ok plugins) (Status.error e) = Status.error e
  add_worker number start (Status.ok plugins) (Status.ok workers) =
      Status.ok (create_worker number start plugins ∷ workers)

  unfoldable pub create_from : ℕ → ℕ → ℕ → ℕ → StatusOr (List W)
  unfolding add_worker
  create_from zero worker_number first delay = Status.ok []
  create_from (suc left) worker_number first delay =
      add_worker worker_number (first + delay * worker_number) (create_plugins worker_number)
        (create_from left (worker_number + 1) first delay)

  unfoldable pub create_workers : Now → Option ℕ → ℕ → ℕ → StatusOr (List W)
  unfolding create_from compute_first_worker_start compute_inter_worker_delay
  create_workers now scheduled_start concurrency rps =
      create_from concurrency 0 (compute_first_worker_start now scheduled_start concurrency)
        (compute_inter_worker_delay concurrency rps)
