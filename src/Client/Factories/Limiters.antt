-- ===== src/Client/Factories/Limiters.antt =====
-- The rate limiter that SequencerFactoryImpl::create() assembles, source/client/factories_impl.cc.
pub mod Start
use nighthawk.Base.{
  ℕ, Bool, true, false, if◌then◌else◌, ltb, ◌==◌, List, [], ◌∷◌, Option, none, some, String,
}
use nighthawk.Base.Text.{str_cat}
use nighthawk.Base.Result.{Result, ok, err, exception, ◌>>=◌}
use nighthawk.Base.Status
use nighthawk.Base.Status.{StatusOr}
use nighthawk.Common.RateLimiter.{Now, RateLimiter}
use nighthawk.Common.RateLimiter.Pacing.{LinearRateLimiter, linear, linear_rate_limiter}
use nighthawk.Common.RateLimiter.Bursting.{bursting, bursting_rate_limiter}
use nighthawk.Common.RateLimiter.Scheduled.{ScheduledStartingRateLimiter, scheduled}
use nighthawk.Common.RateLimiter.Delegating.{DelegatingRateLimiter, delegating}
use nighthawk.Client.Options.{Options}

-- RateLimiterPtr: a limiter of any class.
pub record RateLimiterPtr : Type 1 where
  pub Class : Type 0
  pub operations : RateLimiter Class
  pub object : Class

unfoldable pub start_at : ℕ → RateLimiterPtr → RateLimiterPtr
start_at scheduled_starting_time l = record {
  Class = ScheduledStartingRateLimiter l.Class;
  operations = scheduled l.operations;
  object = record {
    rate_limiter = l.object;
    scheduled_starting_time = scheduled_starting_time;
    aquisition_attempted = false;
  };
}

-- if (burst_size)
unfoldable pub add_burst : ℕ → RateLimiterPtr → RateLimiterPtr
unfolding bursting_rate_limiter
add_burst burst_size l = if burst_size == 0 then l else record {
  Class = _;
  operations = bursting l.operations;
  object = bursting_rate_limiter l.object burst_size;
}

-- What LoadRateLimiterPlugin() returns, with the start put before it.
unfoldable pub plugin_limiter : ℕ → StatusOr RateLimiterPtr → Result RateLimiterPtr
unfolding start_at
plugin_limiter scheduled_starting_time (Status.ok l) = ok (start_at scheduled_starting_time l)
plugin_limiter scheduled_starting_time (Status.error e) =
    err (exception (str_cat ("Rate Limiter plugin loading error: " ∷ e.message ∷ [])))

unfoldable pub linear_ptr : LinearRateLimiter → RateLimiterPtr
linear_ptr l = record { Class = LinearRateLimiter; operations = linear; object = l }

-- `sample` draws a value up to a bound from a generator: UniformRandomDistributionSamplerImpl.
module _ {G : Type 0} (sample : ℕ → G → ℕ × G) (seeded : G) where
  -- if (jitter_uniform.count() > 0)
  unfoldable pub add_jitter : ℕ → RateLimiterPtr → RateLimiterPtr
  add_jitter jitter_uniform l =
      if ltb 0 jitter_uniform
      then record {
        Class = DelegatingRateLimiter l.Class G;
        operations = delegating l.operations (sample jitter_uniform);
        object = record {
          rate_limiter = l.object;
          generator = seeded;
          distributed_timings = [];
          sanity_check_pending_release = true;
        };
      }
      else l

  -- `load_plugin` is LoadRateLimiterPlugin().
  module _ {M : Type 0} (load_plugin : M → StatusOr RateLimiterPtr) where
    unfoldable pub create_rate_limiter : Options M → ℕ → Option M → Result RateLimiterPtr
    unfolding plugin_limiter linear_ptr start_at add_burst add_jitter
    create_rate_limiter o scheduled_starting_time (some config) =
        plugin_limiter scheduled_starting_time (load_plugin config)
    create_rate_limiter o scheduled_starting_time none =
        linear_rate_limiter o.requests_per_second >>= λ l. ok (
          add_jitter o.jitter_uniform
            (add_burst o.burst_size (start_at scheduled_starting_time (linear_ptr l))))
