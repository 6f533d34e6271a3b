-- ===== src/Common/Worker/Tests.antt =====
-- A worker that is started, and shut down while its thread works.
use nighthawk.Base.{◌≡◌, refl, true, false, some}
use nighthawk.Base.Result.{ok, err, abort}
use nighthawk.Common.Worker.{
  Worker, run_dispatcher, work, worker, start, advance, initiate_shutdown, join, destroy,
  run_thread, Reach, new, call_start, progress,
}
use nighthawk.Common.Worker.Life.{IsOrderly, Reach-IsOrderly}
use nighthawk.Common.Worker.Shutdown.{shutdown_lem}

abbrev running : Worker
running = record worker { started = true; shutdown = false; thread = some run_dispatcher }

abbrev working : Worker
working = record running { thread = some work }

working-Reach : Reach working
unfolding worker start advance
working-Reach =
    progress running working run_dispatcher (call_start worker running new refl) refl refl

Reach-IsOrderly_example : IsOrderly working
Reach-IsOrderly_example = Reach-IsOrderly working working-Reach

shutdown_lem_example :
    (r : Worker) × (initiate_shutdown working ≡ ok r)
    × (join (run_thread 6 r) ≡ some (record (run_thread 6 r) { joined = true }))
    × (destroy (record (run_thread 6 r) { joined = true }) ≡ ok tt)
shutdown_lem_example = shutdown_lem working work working-Reach refl

-- A worker whose thread is still joinable must not be destroyed.
destroy_early : destroy (record working { shutdown = true }) ≡ err abort
unfolding destroy worker
destroy_early = refl
