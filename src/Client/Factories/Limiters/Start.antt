-- ===== src/Client/Factories/Limiters/Start.antt =====
-- The assembled limiter before the scheduled start: source/client/factories_impl.cc.
use nighthawk.Base.{
  ℕ, zero, suc, ◌<◌, ◌≡◌, refl, sym, subst, Bool, true, false, if◌then◌else◌, ltb, ◌==◌, List, [],
  ◌∷◌, All, Option, none, some, Bool-cases, lt→ltb, inl, inr, arith,
}
use nighthawk.Base.Result.{ok, ok-injective, bind-ok}
use nighthawk.Base.Status
use nighthawk.Base.Status.{StatusOr}
use nighthawk.Common.RateLimiter.{Now, RateLimiter}
use nighthawk.Common.RateLimiter.Pacing.{linear_rate_limiter}
use nighthawk.Common.RateLimiter.Bursting.{
  BurstingRateLimiter, bursting_rate_limiter, bursting_try_acquire, bursting_try_acquire_one,
  accumulate, keep_saving, release_burst,
}
use nighthawk.Common.RateLimiter.Scheduled.{scheduled_try_acquire}
use nighthawk.Common.RateLimiter.Scheduled.Laws.{poll}
use nighthawk.Common.RateLimiter.Delegating.{
  DelegatingRateLimiter, delegating_try_acquire, draw_timing, release_front,
}
use nighthawk.Client.Options.{Options}
use nighthawk.Client.Factories.Limiters.{
  RateLimiterPtr, start_at, add_burst, add_jitter, plugin_limiter, linear_ptr, create_rate_limiter,
}

-- An early call in a closed state is refused and leaves a closed state.
pub record IsClosed (start : ℕ) (l : RateLimiterPtr) : Type 1 where
  pub Closed : l.Class → Type 0
  pub now_closed : Closed l.object
  pub stays_closed :
      (now : Now) (s : l.Class)
      → Closed s
      → ltb now.monotonic_time start ≡ true
      → ((l.operations.try_acquire_one now s).0 ≡ false)
        × Closed (l.operations.try_acquire_one now s).1

start_at-IsClosed : (start : ℕ) (l : RateLimiterPtr) → IsClosed start (start_at start l)
unfolding start_at scheduled_try_acquire
start_at-IsClosed start l = record {
  Closed = λ s. s.scheduled_starting_time ≡ start;
  now_closed = refl;
  stays_closed = λ now s same early.
      let before = subst (λ t. ltb now.monotonic_time t ≡ true) (sym same) early in
      (rw before refl, rw before same);
}

-- Refused, with a state after the call that satisfies the predicate.
abbrev Refused : {S : Type 0} → (S → Type 0) → Bool × S → Type 0
Refused P (acquired, s) = (acquired ≡ false) × P s

abbrev Saving : {S : Type 0} → (S → Type 0) → BurstingRateLimiter S → Type 0
Saving Closed b = Closed b.rate_limiter × (b.releasing ≡ false)

abbrev Idle : {S G : Type 0} → (S → Type 0) → DelegatingRateLimiter S G → Type 0
Idle Closed d = Closed d.rate_limiter × (d.distributed_timings ≡ [])

abbrev or_refuse : {S : Type 0} → S → Option (Bool × S) → Bool × S
or_refuse s none = (false, s)
or_refuse s (some result) = result

module _ {S : Type 0} (inner : RateLimiter S) (Closed : S → Type 0) (now : Now)
    (closed_lem : (s : S)
      → Closed s
      → ((inner.try_acquire_one now s).0 ≡ false) × Closed (inner.try_acquire_one now s).1) where
  -- The loop ends in its first round, whatever the fuel.
  accumulate-Refused :
      (fuel : ℕ) (b fallback : BurstingRateLimiter S)
      → Saving Closed b
      → Saving Closed fallback
      → Refused (Saving Closed) (or_refuse fallback (accumulate fuel inner now b))
  unfolding accumulate keep_saving
  accumulate-Refused zero b fallback (closed, saving) stays = (refl, stays)
  accumulate-Refused (suc fuel) b fallback (closed, saving) stays =
      let (refused, after) = closed_lem b.rate_limiter closed in rw refused (refl, (after, saving))

  bursting-Refused :
      (b : BurstingRateLimiter S)
      → Saving Closed b
      → Refused (Saving Closed) (bursting_try_acquire_one inner now b)
  unfolding bursting_try_acquire_one bursting_try_acquire
  bursting-Refused b (closed, saving) =
      let b' = record b { previously_releasing = some b.releasing } in
      subst
        (λ flag. Refused (Saving Closed) (
          or_refuse b
            (if flag then some (release_burst b') else accumulate b.burst_size inner now b')))
        (sym saving) (accumulate-Refused b.burst_size b' b (closed, saving) (closed, saving))

  module _ {G : Type 0} (draw : G → ℕ × G) where
    delegating-Refused :
        (d : DelegatingRateLimiter S G)
        → Idle Closed d
        → Refused (Idle Closed) (delegating_try_acquire inner draw now d)
    unfolding delegating_try_acquire draw_timing release_front
    delegating-Refused d (closed, idle) =
        let (refused, after) = closed_lem d.rate_limiter closed in
        rw refused (
          subst
            (λ timings. Refused (Idle Closed) (
              release_front inner draw now (record d {
                rate_limiter = (inner.try_acquire_one now d.rate_limiter).1;
                distributed_timings = timings;
              })))
            (sym idle) (refl, (after, refl)))

add_burst-IsClosed :
    (start burst_size : ℕ) (l : RateLimiterPtr)
    → IsClosed start l
    → IsClosed start (add_burst burst_size l)
unfolding add_burst bursting_rate_limiter
add_burst-IsClosed start burst_size l closed = elim (Bool-cases (burst_size == 0)) [
  | inl unset ↦ rw unset closed
  | inr set ↦ rw set (record {
    Closed = Saving closed.Closed;
    now_closed = (closed.now_closed, refl);
    stays_closed = λ now s saved early.
        bursting-Refused l.operations closed.Closed now (λ t h. closed.stays_closed now t h early) s
          saved;
  })
]

poll-refused :
    (start : ℕ) (l : RateLimiterPtr) (closed : IsClosed start l) (calls : List Now) (s : l.Class)
    → closed.Closed s
    → All (λ now. now.monotonic_time < start) calls
    → All (λ acquired. acquired ≡ false) (poll l.operations s calls)
unfolding poll
poll-refused start l closed [] s h early = tt
poll-refused start l closed (now ∷ calls) s h (before, early) =
    let (refused, after) = closed.stays_closed now s h (lt→ltb now.monotonic_time start before) in
    (refused, poll-refused start l closed calls _ after early)

plugin-IsClosed :
    (start : ℕ) (loaded : StatusOr RateLimiterPtr) (l : RateLimiterPtr)
    → plugin_limiter start loaded ≡ ok l
    → IsClosed start l
unfolding plugin_limiter
plugin-IsClosed start (Status.ok loaded) l h =
    subst (IsClosed start) (ok-injective _ l h) (start_at-IsClosed start loaded)
plugin-IsClosed start (Status.error e) l h = ground (arith, h)

module _ {G : Type 0} (sample : ℕ → G → ℕ × G) (seeded : G) where
  add_jitter-IsClosed :
      (start jitter_uniform : ℕ) (l : RateLimiterPtr)
      → IsClosed start l
      → IsClosed start (add_jitter sample seeded jitter_uniform l)
  unfolding add_jitter
  add_jitter-IsClosed start jitter_uniform l closed = elim (Bool-cases (ltb 0 jitter_uniform)) [
    | inr unset ↦ rw unset closed
    | inl set ↦ rw set (record {
      Closed = Idle closed.Closed;
      now_closed = (closed.now_closed, refl);
      stays_closed = λ now s idle early.
          delegating-Refused l.operations closed.Closed now
            (λ t h. closed.stays_closed now t h early) (sample jitter_uniform) s idle;
    })
  ]

  module _ {M : Type 0} (load_plugin : M → StatusOr RateLimiterPtr) where
    create-IsClosed :
        (o : Options M) (start : ℕ) (plugin : Option M) (l : RateLimiterPtr)
        → create_rate_limiter sample seeded load_plugin o start plugin ≡ ok l
        → IsClosed start l
    unfolding create_rate_limiter plugin_limiter
    create-IsClosed o start (some config) l h = plugin-IsClosed start (load_plugin config) l h
    create-IsClosed o start none l h =
        let (limiter, made, e) = bind-ok (linear_rate_limiter o.requests_per_second) _ l h in
        subst (IsClosed start) (ok-injective _ l e) (
          add_jitter-IsClosed start o.jitter_uniform _ (
            add_burst-IsClosed start o.burst_size _ (start_at-IsClosed start (linear_ptr limiter))))

    -- However the factory assembles a rate limiter, from a plugin or from a linear limiter with or
    -- without bursts and jitter, it refuses every call of a sequence that lies before the scheduled
    -- start.
    pub create_rate_limiter-refuses :
        (o : Options M) (start : ℕ) (plugin : Option M) (l : RateLimiterPtr) (calls : List Now)
        → create_rate_limiter sample seeded load_plugin o start plugin ≡ ok l
        → All (λ now. now.monotonic_time < start) calls
        → All (λ acquired. acquired ≡ false) (poll l.operations l.object calls)
    create_rate_limiter-refuses o start plugin l calls created early =
        let closed = create-IsClosed o start plugin l created in
        poll-refused start l closed calls l.object closed.now_closed early
