-- ===== src/Client/BenchmarkClient/Stall.antt =====
-- Requests that the pool fails are never counted as completed, so with backpressure each of them
-- takes away a place for good: benchmark_client_impl.cc, onPoolFailure() and tryStartRequest().
use nighthawk.Base.{
  ℕ, zero, suc, ◌+◌, ◌%◌, ◌≤◌, ◌<◌, ◌≡◌, refl, Bool, true, Option, none, some, arith, word_size,
  subst, ap, [],
}
use nighthawk.Client.BenchmarkClient.{
  BenchmarkClient, Counters, RequestSize, NewStream, content_length, PoolFailureReason,
  max_in_flight, try_start_request, on_pool_failure,
}
use nighthawk.Client.BenchmarkClient.Counting.{
  Traffic, Step, starts, completes, fails, Reach, here, next, IsCounted, IsClassified,
  Reach-IsCounted,
}

abbrev pub zero_counters : Counters
zero_counters = record {
  stream_resets = 0;
  http_1xx = 0;
  http_2xx = 0;
  http_3xx = 0;
  http_4xx = 0;
  http_5xx = 0;
  http_xxx = 0;
  pool_overflow = 0;
  pool_connection_failure = 0;
  user_defined_plugin_handle_headers_failure = 0;
  user_defined_plugin_handle_data_failure = 0;
}

zero_counters-IsClassified : IsClassified [] zero_counters
zero_counters-IsClassified = ground arith

-- A new client with backpressure, and the limit of its configuration.
pub record IsNew (limit : ℕ) (t : Traffic) : Type 0 where
  pub backpressure : t.client.provide_resource_backpressure ≡ true
  pub limited : max_in_flight t.client ≡ limit
  pub not_initiated : t.client.requests_initiated ≡ 0
  pub not_completed : t.client.requests_completed ≡ 0
  pub counters_zero : t.client.counters ≡ zero_counters
  pub no_streams : t.streams ≡ 0
  pub no_outcomes : t.outcomes ≡ []
  pub no_failures : t.pool_failures ≡ 0

module _ (limit : ℕ) (limit_fits : limit < word_size) where
  -- The limit counts requests that failed in the pool as if they were in flight.
  full_refuses :
      (t : Traffic)
      → IsCounted limit t
      → t.streams + t.pool_failures ≡ limit
      → (has_pool : Bool) (generated : Option RequestSize)
      → try_start_request has_pool generated t.client ≡ (none, t.client)
  unfolding try_start_request
  full_refuses t v full has_pool generated = ground (arith, v.limited)

  no-Step : {t t' : Traffic} → IsCounted limit t → limit ≤ t.pool_failures → Step t t' → ⊥
  no-Step {t} v over (starts has_pool generated stream e e') = ground (
    arith,
    ap (λ (r : Option NewStream × BenchmarkClient). r.0)
        (full_refuses t v (omega (arith, v.within)) has_pool generated),
  )
  no-Step v over (completes success status n plugins e e') = omega (arith, v.within, e)
  no-Step v over (fails reason n e e') = omega (arith, v.within, e)

  new-IsCounted : (t : Traffic) → IsNew limit t → IsCounted limit t
  new-IsCounted t v = record {
    completed = rw (v.not_completed, v.no_outcomes) refl;
    initiated = omega (arith, v.not_initiated, v.not_completed, v.no_streams, v.no_failures);
    classified = rw (v.counters_zero, v.no_outcomes) zero_counters-IsClassified;
    limited = v.limited;
    backpressure = v.backpressure;
    within = omega (arith, v.no_streams, v.no_failures);
  }

  Reach-append : {t u w : Traffic} → Reach t u → Reach u w → Reach t w
  Reach-append first here = first
  Reach-append first (next r st) = next (Reach-append first r) st

  starts_with_room :
      (r : RequestSize) (t : Traffic)
      → IsCounted limit t
      → t.streams + t.pool_failures < limit
      → (stream : NewStream) × ((try_start_request true (some r) t.client).0 ≡ some stream)
  unfolding try_start_request
  starts_with_room r t v room = (
    record {
      measure_latencies = t.client.measure_latencies;
      request_body_size = content_length r % 4294967296;
    },
    ground (arith, v.limited),
  )

  -- Requests that are started and fail in the pool, one after the other.
  fail_requests :
      (r : RequestSize) (reason : PoolFailureReason) (created : Traffic)
      → IsNew limit created
      → (n : ℕ) → n ≤ limit
      → (t : Traffic) × Reach created t × (t.streams ≡ 0) × (t.pool_failures ≡ n)
  fail_requests r reason created v zero enough = (created, here, v.no_streams, v.no_failures)
  fail_requests r reason created v (suc n) enough =
      let (t, past, idle, failed) = fail_requests r reason created v n (omega (arith, enough)) in
      let counted = Reach-IsCounted limit limit_fits past (new-IsCounted created v) in
      let (stream, started) = starts_with_room r t counted (omega (arith, idle, failed, enough)) in
      (
        record t {
          client = on_pool_failure reason (try_start_request true (some r) t.client).1;
          pool_failures = suc t.pool_failures;
        },
        next (next past (starts true (some r) stream started refl))
            (fails reason t.streams refl refl),
        idle,
        omega (arith, failed),
      )

  -- A new client comes to a state in which no request is in flight and it still starts none, whatever
  -- the pool and the generator offer: when as many requests as the limit allows in flight were
  -- started, one after the other, and failed in the pool.
  pub reaches_stall :
      (r : RequestSize) (reason : PoolFailureReason) (created : Traffic)
      → IsNew limit created
      → (t : Traffic) × Reach created t
        × (t.streams ≡ 0)
        × (t.pool_failures ≡ limit)
        × ((has_pool : Bool) (generated : Option RequestSize)
            → try_start_request has_pool generated t.client ≡ (none, t.client))
  reaches_stall r reason created v =
      let (t, past, idle, failed) = fail_requests r reason created v limit (omega arith) in
      let counted = Reach-IsCounted limit limit_fits past (new-IsCounted created v) in
      (t, past, idle, failed, full_refuses t counted (omega (arith, idle, failed)))

  stays_full :
      {t t' : Traffic}
      → IsCounted limit t
      → limit ≤ t.pool_failures
      → Reach t t'
      → (t' ≡ t)
        × ((has_pool : Bool) (generated : Option RequestSize)
            → try_start_request has_pool generated t'.client ≡ (none, t'.client))
  stays_full {t} v over here = (refl, full_refuses t v (omega (arith, v.within)))
  stays_full {t} {t'} v over (next r st) =
      let (same, refused) = stays_full v over r in
      absurd (no-Step v over (subst (λ u. Step u t') same st))

  -- A client that is new, and whose requests so far include as many that failed in the pool as the
  -- limit allows in flight, does nothing any more: no later state differs, and it starts no request,
  -- whatever the pool and the generator offer.
  pub stalls :
      {created t t' : Traffic}
      → IsNew limit created
      → Reach created t
      → limit ≤ t.pool_failures
      → Reach t t'
      → (t' ≡ t)
        × ((has_pool : Bool) (generated : Option RequestSize)
            → try_start_request has_pool generated t'.client ≡ (none, t'.client))
  stalls {created} v past over future =
      stays_full (Reach-IsCounted limit limit_fits past (new-IsCounted created v)) over future
