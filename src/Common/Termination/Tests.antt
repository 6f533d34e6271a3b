-- ===== src/Common/Termination/Tests.antt =====
-- Concrete chains of termination predicates.
use nighthawk.Base.{◌*◌, ◌≡◌, refl, map}
use nighthawk.Common.Termination.{
  proceed, fail, World, duration, counter_threshold, Chain, alone, linked, evaluate, evaluate_chain,
  innermost_first, first_stop,
}
use nighthawk.Common.Termination.Laws.{evaluate_chain-first_stop}

abbrev late : World
late = record { monotonic_time = 5001000; counter_value = λ counter. counter * 10 }

-- Five milliseconds from time 1000, and no more than 20 on the third counter.
abbrev five_ms : Chain
five_ms = linked (duration 1000 5000) (alone (counter_threshold 2 20 fail))

five_ms_status : evaluate_chain late five_ms ≡ proceed
unfolding evaluate_chain
five_ms_status = refl

evaluate_chain-first_stop_example :
    evaluate_chain late five_ms ≡ first_stop (map (evaluate late) (innermost_first five_ms))
evaluate_chain-first_stop_example = evaluate_chain-first_stop late five_ms
