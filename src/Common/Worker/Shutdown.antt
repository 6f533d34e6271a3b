-- ===== src/Common/Worker/Shutdown.antt =====
-- The end of a worker: source/common/worker_impl.cc.
use nighthawk.Base.{
  ℕ, zero, suc, ◌≤◌, ◌≡◌, refl, sym, ap, ◌∙◌, Bool, true, false, if◌then◌else◌, some, arith,
}
use nighthawk.Base.Result.{ok, err, exception}
use nighthawk.Common.Worker.{
  Stage, run_dispatcher, work, set_complete, wait_for_exit, shutdown_thread, shutdown_tls, finished,
  Worker, initiate_shutdown, set_exit_signal, join, join_thread, advance, advance_stage, move_on,
  or_stay, thread_step, run_thread, is_joinable, destroy, Reach,
}
use nighthawk.Common.Worker.Life.{Reach-IsOrderly}

-- The thread is at a stage, and the exit is signalled and the shutdown noted.
abbrev IsLeaving : Stage → Worker → Type 0
IsLeaving stage w = (w.thread ≡ some stage) × (w.signal_thread_to_exit ≡ true) × (w.shutdown ≡ true)

step-IsLeaving :
    (stage next : Stage) (w : Worker)
    → advance_stage true stage ≡ some next
    → IsLeaving stage w
    → IsLeaving next (thread_step w w.thread)
unfolding thread_step advance move_on or_stay
step-IsLeaving stage next w moves (at, signal, noted) = rw (at, signal, moves) (refl, refl, noted)

rest-IsLeaving : (w : Worker) → IsLeaving finished w → IsLeaving finished (thread_step w w.thread)
unfolding thread_step advance advance_stage move_on or_stay
rest-IsLeaving w (at, signal, noted) = rw (at, signal) (refl, refl, noted)

rests : (steps : ℕ) (w : Worker) → IsLeaving finished w → IsLeaving finished (run_thread steps w)
unfolding run_thread
rests zero w leaving = leaving
rests (suc steps) w leaving = rests steps (thread_step w w.thread) (rest-IsLeaving w leaving)

-- The stages in their order, each with the steps that are left.
from_tls : (w : Worker) → IsLeaving shutdown_tls w → IsLeaving finished (run_thread 1 w)
unfolding run_thread advance_stage
from_tls w l = step-IsLeaving shutdown_tls finished w refl l

from_shutdown : (w : Worker) → IsLeaving shutdown_thread w → IsLeaving finished (run_thread 2 w)
unfolding run_thread advance_stage
from_shutdown w l =
    from_tls (thread_step w w.thread) (step-IsLeaving shutdown_thread shutdown_tls w refl l)

from_wait : (w : Worker) → IsLeaving wait_for_exit w → IsLeaving finished (run_thread 3 w)
unfolding run_thread advance_stage
from_wait w l =
    from_shutdown (thread_step w w.thread) (step-IsLeaving wait_for_exit shutdown_thread w refl l)

from_complete : (w : Worker) → IsLeaving set_complete w → IsLeaving finished (run_thread 4 w)
unfolding run_thread advance_stage
from_complete w l =
    from_wait (thread_step w w.thread) (step-IsLeaving set_complete wait_for_exit w refl l)

from_work : (w : Worker) → IsLeaving work w → IsLeaving finished (run_thread 5 w)
unfolding run_thread advance_stage
from_work w l = from_complete (thread_step w w.thread) (step-IsLeaving work set_complete w refl l)

-- More steps than enough are enough.
run_longer :
    (steps total : ℕ) (w : Worker)
    → steps ≤ total
    → IsLeaving finished (run_thread steps w)
    → IsLeaving finished (run_thread total w)
unfolding run_thread
run_longer zero total w enough l = rests total w l
run_longer (suc steps) zero w enough l = absurd (omega (arith, enough))
run_longer (suc steps) (suc total) w enough l =
    run_longer steps total (thread_step w w.thread) (omega (arith, enough)) l

run_thread-IsLeaving :
    (w : Worker) (stage : Stage) → IsLeaving stage w → IsLeaving finished (run_thread 6 w)
unfolding run_thread advance_stage
run_thread-IsLeaving w finished l = rests 6 w l
run_thread-IsLeaving w shutdown_tls l = run_longer 1 6 w (omega arith) (from_tls w l)
run_thread-IsLeaving w shutdown_thread l = run_longer 2 6 w (omega arith) (from_shutdown w l)
run_thread-IsLeaving w wait_for_exit l = run_longer 3 6 w (omega arith) (from_wait w l)
run_thread-IsLeaving w set_complete l = run_longer 4 6 w (omega arith) (from_complete w l)
run_thread-IsLeaving w work l = run_longer 5 6 w (omega arith) (from_work w l)
run_thread-IsLeaving w run_dispatcher l =
    from_work (thread_step w w.thread) (step-IsLeaving run_dispatcher work w refl l)

left_lem :
    (w : Worker) (signalled given : Bool)
    → w.exit_signaled ≡ signalled
    → w.signal_thread_to_exit ≡ given
    → signalled ≡ given
    → (r : Worker) × ((if signalled
          then ok (record w { shutdown = true })
          else if given
          then err (exception "Promise already satisfied")
          else ok
              (record w { shutdown = true; exit_signaled = true; signal_thread_to_exit = true }))
        ≡ ok r)
      × (r.thread ≡ w.thread)
      × (r.signal_thread_to_exit ≡ true)
      × (r.shutdown ≡ true)
left_lem w true given seen signal same =
    (record w { shutdown = true }, refl, refl, signal ∙ sym same, refl)
left_lem w false false seen signal same = (
  record w { shutdown = true; exit_signaled = true; signal_thread_to_exit = true },
  refl,
  refl,
  refl,
  refl,
)
left_lem w false true seen signal same = absurd (ground (arith, same))

destroy_joined :
    (w : Worker) (stage : Stage)
    → w.thread ≡ some stage
    → w.shutdown ≡ true
    → destroy (record w { joined = true }) ≡ ok tt
unfolding destroy is_joinable
destroy_joined w stage at noted = rw (noted, at) refl

-- In the life of a worker that was started, initiateShutdown() never throws. After it, six steps of the
-- thread are enough for it to end, provided that work() returns; then it can be joined at once. After
-- that the worker can be destroyed.
pub shutdown_lem :
    (w : Worker) (stage : Stage)
    → Reach w
    → w.thread ≡ some stage
    → (r : Worker) × (initiate_shutdown w ≡ ok r)
      × (join (run_thread 6 r) ≡ some (record (run_thread 6 r) { joined = true }))
      × (destroy (record (run_thread 6 r) { joined = true }) ≡ ok tt)
unfolding initiate_shutdown set_exit_signal join join_thread
shutdown_lem w stage reach at =
    let s = Reach-IsOrderly w reach in
    let (r, left, same, signal, noted) =
      left_lem w w.exit_signaled w.signal_thread_to_exit refl refl s.one_signal in
    let (ended, given, kept) = run_thread-IsLeaving r stage (same ∙ at, signal, noted) in
    (
      r,
      left,
      ap (join_thread (run_thread 6 r)) ended,
      destroy_joined (run_thread 6 r) finished ended kept,
    )
