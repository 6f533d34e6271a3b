-- ===== src/Common/Worker.antt =====
-- The life of a worker thread: source/common/worker_impl.{h,cc}. The calls of the owner and the
-- progress of the thread are steps that may come in any order; work() is one of them.
pub mod Life
pub mod Shutdown
mod Tests
use nighthawk.Base.{ℕ, zero, suc, ◌≡◌, Bool, true, false, not, if◌then◌else◌, Option, none, some}
use nighthawk.Base.Result.{Result, ok, err, exception, release_assert, ◌>>=◌, ◌>>◌}

-- What the thread does next: the first run of the dispatcher, work(), complete_.set_value(), the wait
-- for the exit signal, shutdownThread(), tls_.shutdownThread(), and nothing.
pub data Stage : Type 0 where
  run_dispatcher work set_complete wait_for_exit shutdown_thread shutdown_tls finished : Stage

-- `thread` is there once it was started, and `joined` tells that it is not joinable any more;
-- `complete` and `signal_thread_to_exit` say whether the promises have their value.
pub record Worker : Type 0 where
  pub started : Bool
  pub exit_signaled : Bool
  pub shutdown : Bool
  pub thread : Option Stage
  pub joined : Bool
  pub complete : Bool
  pub signal_thread_to_exit : Bool

unfoldable pub worker : Worker
worker = record {
  started = false;
  exit_signaled = false;
  shutdown = true;
  thread = none;
  joined = false;
  complete = false;
  signal_thread_to_exit = false;
}

unfoldable pub start : Worker → Result Worker
start w = do
  release_assert (not w.started)
  ok (record w { started = true; shutdown = false; thread = some run_dispatcher })

-- std::promise::set_value() throws when it is called again.
unfoldable pub set_exit_signal : Worker → Result Worker
set_exit_signal w =
    if w.signal_thread_to_exit
    then err (exception "Promise already satisfied")
    else ok (record w { signal_thread_to_exit = true })

unfoldable pub initiate_shutdown : Worker → Result Worker
unfolding set_exit_signal
initiate_shutdown w =
    if w.exit_signaled
    then ok (record w { shutdown = true })
    else set_exit_signal (record w { shutdown = true; exit_signaled = true })

unfoldable pub join_thread : Worker → Option Stage → Option Worker
join_thread w none = some w
join_thread w (some finished) = some (record w { joined = true })
join_thread w (some stage) = if w.joined then some w else none

-- thread_.join(), if the thread is joinable: `none` while it has to wait for the thread.
unfoldable pub join : Worker → Option Worker
unfolding join_thread
join w = join_thread w w.thread

-- The next thing that the thread does; `none` while it waits, or has ended.
unfoldable pub advance_stage : Bool → Stage → Option Stage
advance_stage signalled run_dispatcher = some work
advance_stage signalled work = some set_complete
advance_stage signalled set_complete = some wait_for_exit
advance_stage true wait_for_exit = some shutdown_thread
advance_stage false wait_for_exit = none
advance_stage signalled shutdown_thread = some shutdown_tls
advance_stage signalled shutdown_tls = some finished
advance_stage signalled finished = none

unfoldable pub sets_complete : Stage → Bool
sets_complete set_complete = true
sets_complete stage = false

unfoldable pub move_on : Worker → Stage → Option Stage → Option Worker
unfolding sets_complete
move_on w stage none = none
move_on w stage (some next) =
    some
      (record w { thread = some next; complete = if sets_complete stage then true else w.complete })

unfoldable pub advance : Worker → Stage → Option Worker
unfolding advance_stage move_on
advance w stage = move_on w stage (advance_stage w.signal_thread_to_exit stage)

unfoldable pub is_joinable : Worker → Bool
is_joinable w = elim w.thread [ none ↦ false | some stage ↦ not w.joined ]

-- WorkerImpl::~WorkerImpl(), and the destruction of the members: a std::thread that is still joinable
-- ends the process.
unfoldable pub destroy : Worker → Result (Unit {0})
unfolding is_joinable
destroy w = do release_assert w.shutdown; release_assert (not (is_joinable w))

-- A worker of any history of calls and progress. shutdown() is initiate_shutdown and then join.
pub data Reach : Worker → Type 0 where
  new : Reach worker
  call_start : (w w' : Worker) → Reach w → start w ≡ ok w' → Reach w'
  call_initiate_shutdown : (w w' : Worker) → Reach w → initiate_shutdown w ≡ ok w' → Reach w'
  call_join : (w w' : Worker) → Reach w → w.exit_signaled ≡ true → join w ≡ some w' → Reach w'
  progress :
      (w w' : Worker) (stage : Stage)
      → Reach w
      → w.thread ≡ some stage
      → advance w stage ≡ some w'
      → Reach w'

-- A step of the thread, if it can take one.
unfoldable pub or_stay : Worker → Option Worker → Worker
or_stay w none = w
or_stay w (some w') = w'

unfoldable pub thread_step : Worker → Option Stage → Worker
unfolding advance or_stay
thread_step w none = w
thread_step w (some stage) = or_stay w (advance w stage)

-- The thread alone, for a number of steps.
unfoldable pub run_thread : ℕ → Worker → Worker
unfolding thread_step
run_thread zero w = w
run_thread (suc steps) w = run_thread steps (thread_step w w.thread)
