-- ===== src/Common/Worker/Life.antt =====
-- What holds at any time in the life of a worker: source/common/worker_impl.cc.
use nighthawk.Base.{
  ◌≡◌, refl, sym, ap, ◌∙◌, subst, ◌⊎◌, inl, inr, Bool, true, false, not, ◌&&◌, if◌then◌else◌,
  Bool-cases, Option, none, some, arith,
}
use nighthawk.Base.Result.{ok, err, exception, ok-injective}
use nighthawk.Common.Worker.{
  Stage, run_dispatcher, work, set_complete, wait_for_exit, shutdown_thread, shutdown_tls, finished,
  Worker, worker, start, set_exit_signal, initiate_shutdown, join_thread, join, advance_stage,
  sets_complete, move_on, advance, Reach, new, call_start, call_initiate_shutdown, call_join,
  progress,
}

-- What a stage tells: there is a thread, its work is complete, and it has seen the exit signal.
abbrev pub exists : Option Stage → Bool
exists none = false
exists (some stage) = true

abbrev pub has_completed : Option Stage → Bool
has_completed (some wait_for_exit) = true
has_completed (some shutdown_thread) = true
has_completed (some shutdown_tls) = true
has_completed (some finished) = true
has_completed thread = false

abbrev pub is_past_exit : Option Stage → Bool
is_past_exit (some shutdown_thread) = true
is_past_exit (some shutdown_tls) = true
is_past_exit (some finished) = true
is_past_exit thread = false

abbrev pub is_finished : Option Stage → Bool
is_finished (some finished) = true
is_finished thread = false

pub record IsOrderly (w : Worker) : Type 0 where
  -- the exit signal is given at most once, so that its promise does not throw
  pub one_signal : w.exit_signaled ≡ w.signal_thread_to_exit
  pub one_thread : w.started ≡ exists w.thread
  pub completion : w.complete ≡ has_completed w.thread
  -- shutdownThread() runs only after the work is complete and the exit was signalled
  pub exit_first : (is_past_exit w.thread && not w.exit_signaled) ≡ false
  pub joined_last : (w.joined && not (is_finished w.thread)) ≡ false

new_IsOrderly : IsOrderly worker
unfolding worker
new_IsOrderly = record {
  one_signal = refl;
  one_thread = refl;
  completion = refl;
  exit_first = refl;
  joined_last = refl;
}

fresh_completed : (t : Option Stage) → false ≡ exists t → has_completed t ≡ false
fresh_completed none h = refl
fresh_completed (some stage) h = ground (arith, h)

fresh_joined :
    (t : Option Stage) (j : Bool)
    → false ≡ exists t
    → (j && not (is_finished t)) ≡ false
    → (j && true) ≡ false
fresh_joined none j h e = e
fresh_joined (some stage) j h e = ground (arith, h)

and-no : (a b : Bool) → b ≡ false → (a && b) ≡ false
and-no true b h = h
and-no false b h = refl

some-injective {ℓ} : {A : Type ℓ} (a b : A) → some a ≡ some b → a ≡ b
some-injective a b h = ap (λ o. elim o [ some x ↦ x | none ↦ a ]) h

start-IsOrderly : (w w' : Worker) → IsOrderly w → start w ≡ ok w' → IsOrderly w'
unfolding start
start-IsOrderly w w' s h = elim (Bool-cases w.started) [
  | inl again ↦ absurd (ground (arith, h, again))
  | inr fresh ↦
      let no_thread = sym fresh ∙ s.one_thread in
      let h' : ok (record w { started = true; shutdown = false; thread = some run_dispatcher })
          ≡ ok w' =
        ground (arith, h, fresh) in
      subst IsOrderly (ok-injective _ w' h') (record {
        one_signal = s.one_signal;
        one_thread = refl;
        completion = s.completion ∙ fresh_completed w.thread no_thread;
        exit_first = refl;
        joined_last = fresh_joined w.thread w.joined no_thread s.joined_last;
      })
]

signal_cases :
    (w w' : Worker) (signalled given : Bool)
    → signalled ≡ given
    → (if signalled
        then ok (record w { shutdown = true })
        else if given
        then err (exception "Promise already satisfied")
        else ok (record w { shutdown = true; exit_signaled = true; signal_thread_to_exit = true }))
      ≡ ok w'
    → (record w { shutdown = true } ≡ w')
      ⊎ (record w { shutdown = true; exit_signaled = true; signal_thread_to_exit = true } ≡ w')
signal_cases w w' true given same h = inl (ok-injective _ w' h)
signal_cases w w' false true same h = ground (arith, same)
signal_cases w w' false false same h = inr (ok-injective _ w' h)

initiate_shutdown-IsOrderly :
    (w w' : Worker) → IsOrderly w → initiate_shutdown w ≡ ok w' → IsOrderly w'
unfolding initiate_shutdown set_exit_signal
initiate_shutdown-IsOrderly w w' s h =
    elim (signal_cases w w' w.exit_signaled w.signal_thread_to_exit s.one_signal h) [
      | inl e ↦ subst IsOrderly e (record {
        one_signal = s.one_signal;
        one_thread = s.one_thread;
        completion = s.completion;
        exit_first = s.exit_first;
        joined_last = s.joined_last;
      })
      | inr e ↦ subst IsOrderly e (record {
        one_signal = refl;
        one_thread = s.one_thread;
        completion = s.completion;
        exit_first = and-no (is_past_exit w.thread) false refl;
        joined_last = s.joined_last;
      })
    ]

joined_before :
    (w w' : Worker) (joined : Bool) → (if joined then some w else none) ≡ some w' → w ≡ w'
joined_before w w' true h = some-injective w w' h
joined_before w w' false h = ground (arith, h)

join_thread-IsOrderly :
    (w w' : Worker) (t : Option Stage)
    → w.thread ≡ t
    → IsOrderly w
    → join_thread w t ≡ some w'
    → IsOrderly w'
unfolding join_thread
join_thread-IsOrderly w w' none e s h = subst IsOrderly (some-injective w w' h) s
join_thread-IsOrderly w w' (some finished) e s h = subst IsOrderly (some-injective _ w' h) (record {
  one_signal = s.one_signal;
  one_thread = s.one_thread;
  completion = s.completion;
  exit_first = s.exit_first;
  joined_last = rw e refl;
})
join_thread-IsOrderly w w' (some stage) e s h = subst IsOrderly (joined_before w w' w.joined h) s

not_joined :
    (joined done next : Bool)
    → done ≡ false
    → (joined && not done) ≡ false
    → (joined && not next) ≡ false
not_joined false done next h e = refl
not_joined true done next h e = ground (arith, h, e)

-- The thread moves on from a stage that is not its last.
moved_IsOrderly :
    (w : Worker) (stage next : Stage)
    → w.thread ≡ some stage
    → IsOrderly w
    → (if sets_complete stage then true else has_completed (some stage)) ≡ has_completed (some next)
    → (is_past_exit (some next) && not w.exit_signaled) ≡ false
    → is_finished (some stage) ≡ false
    → IsOrderly (record w {
      thread = some next;
      complete = if sets_complete stage then true else w.complete;
    })
moved_IsOrderly w stage next at s completes exits unfinished = record {
  one_signal = s.one_signal;
  one_thread = s.one_thread ∙ ap exists at;
  completion =
      ap (λ c. if sets_complete stage then true else c) (s.completion ∙ ap has_completed at)
      ∙ completes;
  exit_first = exits;
  joined_last =
      not_joined w.joined (is_finished w.thread) (is_finished (some next))
        (ap is_finished at ∙ unfinished) s.joined_last;
}

-- By the stage, and by the exit signal that the thread sees.
move_on-IsOrderly :
    (w w' : Worker) (stage : Stage) (signal : Bool)
    → w.exit_signaled ≡ signal
    → w.thread ≡ some stage
    → IsOrderly w
    → move_on w stage (advance_stage signal stage) ≡ some w'
    → IsOrderly w'
unfolding move_on advance_stage sets_complete
move_on-IsOrderly w w' run_dispatcher signal seen at s h =
    subst IsOrderly (some-injective _ w' h)
      (moved_IsOrderly w run_dispatcher work at s refl refl refl)
move_on-IsOrderly w w' work signal seen at s h =
    subst IsOrderly (some-injective _ w' h)
      (moved_IsOrderly w work set_complete at s refl refl refl)
move_on-IsOrderly w w' set_complete signal seen at s h =
    subst IsOrderly (some-injective _ w' h)
      (moved_IsOrderly w set_complete wait_for_exit at s refl refl refl)
move_on-IsOrderly w w' wait_for_exit true seen at s h =
    subst IsOrderly (some-injective _ w' h)
      (moved_IsOrderly w wait_for_exit shutdown_thread at s refl (ap not seen) refl)
move_on-IsOrderly w w' wait_for_exit false seen at s h = ground (arith, h)
move_on-IsOrderly w w' shutdown_thread signal seen at s h =
    subst IsOrderly (some-injective _ w' h) (
      moved_IsOrderly w shutdown_thread shutdown_tls at s refl
        (ap (λ t. is_past_exit t && not w.exit_signaled) (sym at) ∙ s.exit_first) refl)
move_on-IsOrderly w w' shutdown_tls signal seen at s h = subst IsOrderly (some-injective _ w' h) (
    moved_IsOrderly w shutdown_tls finished at s refl
      (ap (λ t. is_past_exit t && not w.exit_signaled) (sym at) ∙ s.exit_first) refl)
move_on-IsOrderly w w' finished signal seen at s h = ground (arith, h)

-- At any time in the life of a worker, however the calls of its owner and the progress of its thread
-- interleave: the exit is signalled at most once, there is a thread exactly after start(), the
-- completion is set exactly when work() is done, shutdownThread() runs only after that and after the
-- exit was signalled, and the thread is joined only when it has ended.
pub Reach-IsOrderly : (w : Worker) → Reach w → IsOrderly w
unfolding join advance
Reach-IsOrderly x new = new_IsOrderly
Reach-IsOrderly x (call_start w w' r h) = start-IsOrderly w w' (Reach-IsOrderly w r) h
Reach-IsOrderly x (call_initiate_shutdown w w' r h) =
    initiate_shutdown-IsOrderly w w' (Reach-IsOrderly w r) h
Reach-IsOrderly x (call_join w w' r signalled h) =
    join_thread-IsOrderly w w' w.thread refl (Reach-IsOrderly w r) h
Reach-IsOrderly x (progress w w' stage r at h) =
    let s = Reach-IsOrderly w r in
    move_on-IsOrderly w w' stage w.signal_thread_to_exit s.one_signal at s h
