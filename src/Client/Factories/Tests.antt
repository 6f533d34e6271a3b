-- ===== src/Client/Factories/Tests.antt =====
-- Concrete assemblies of the factories.
use nighthawk.Base.{ℕ, suc, ◌≡◌, refl, false, List, [], ◌∷◌, All, none, arith}
use nighthawk.Base.Chars.{Chars, codes}
use nighthawk.Base.Result.{ok}
use nighthawk.Base.Status.{StatusOr, fail_with, not_found}
use nighthawk.Common.Termination.{World, Chain, terminate, evaluate_chain}
use nighthawk.Common.RateLimiter.{Now}
use nighthawk.Common.RateLimiter.Scheduled.Laws.{poll}
use nighthawk.Common.RateLimiter.Pacing.{linear_rate_limiter, no_counts}
use nighthawk.Client.Options.{Options, defaults}
use nighthawk.Client.Factories.Predicates.{create_predicates, decided, create_predicates_lem}
use nighthawk.Client.Factories.Limiters.{
  RateLimiterPtr, start_at, add_burst, add_jitter, linear_ptr, create_rate_limiter,
}
use nighthawk.Client.Factories.Limiters.Start.{create_rate_limiter-refuses}

-- A counter by the length of its name.
abbrev counter : Chars → ℕ
counter [] = 0
counter (c ∷ cs) = suc (counter cs)

-- Past the duration of five seconds, with a failing counter and a terminating one.
abbrev world : World
world = record { monotonic_time = 6000000000; counter_value = λ counter. counter }

abbrev options : Options ℕ
options = record (defaults 0) { termination_predicates = (codes "abc", 2) ∷ [] }

terminates : decided counter world options 0 ≡ terminate
unfolding defaults
terminates = refl

create_predicates_lem_example :
    (c : Chain) × (create_predicates counter options 0 ≡ ok c)
    × (evaluate_chain world c ≡ decided counter world options 0)
create_predicates_lem_example = create_predicates_lem counter world options 0

abbrev sample : ℕ → ℕ → ℕ × ℕ
sample bound seed = (seed, seed)

abbrev no_plugin : ℕ → StatusOr RateLimiterPtr
no_plugin config = fail_with not_found "no such plugin"

abbrev bursts : Options ℕ
bursts = record (defaults 0) { burst_size = 2; jitter_uniform = 10 }

abbrev paced : RateLimiterPtr
paced = start_at 1000 (linear_ptr (record { frequency = 5; counts = no_counts }))

created :
    create_rate_limiter sample 7 no_plugin bursts 1000 none
    ≡ ok (add_jitter sample 7 10 (add_burst 2 paced))
unfolding create_rate_limiter linear_rate_limiter defaults
created = refl

abbrev two_early : List Now
two_early =
    record { monotonic_time = 5; system_time = 0 }
    ∷ record { monotonic_time = 999; system_time = 0 }
    ∷ []

create_rate_limiter-refuses_example :
    All
      (λ acquired. acquired ≡ false)
      (poll
        (add_jitter sample 7 10 (add_burst 2 paced)).operations
        (add_jitter sample 7 10 (add_burst 2 paced)).object
        two_early)
create_rate_limiter-refuses_example =
    create_rate_limiter-refuses sample 7 no_plugin bursts 1000 none
      (add_jitter sample 7 10 (add_burst 2 paced)) two_early created
      (omega arith, (omega arith, tt))
