-- ===== src/Client/BenchmarkClient/Counting.antt =====
-- The accounts of BenchmarkClientHttpImpl over any traffic: benchmark_client_impl.cc.
use nighthawk.Base.{
  ℕ, suc, ◌+◌, ◌/◌, ◌%◌, ◌≤◌, ◌<◌, ◌≡◌, subst, sym, Bool, true, false, ◌||◌, ◌==◌, ltb, leb,
  if◌then◌else◌, List, [], ◌∷◌, length, Option, some, arith, word_size, inc64,
}
use nighthawk.Client.BenchmarkClient.{
  BenchmarkClient, Counters, RequestSize, NewStream, PoolFailureReason, overflow,
  local_connection_failure, remote_connection_failure, timeout, max_in_flight, try_start_request,
  on_complete, on_pool_failure, count_status, handle_headers,
}

-- How a stream completes: it is reset, or has a response with a status.
pub data Outcome : Type 0 where
  reset : Outcome
  response : ℕ → Outcome

abbrev pub outcome_of : Bool → ℕ → Outcome
outcome_of true status = response status
outcome_of false status = reset

-- A client, the streams that have neither completed nor failed, the outcomes of those that completed,
-- and how many the pool failed.
pub record Traffic : Type 0 where
  pub client : BenchmarkClient
  pub streams : ℕ
  pub outcomes : List Outcome
  pub pool_failures : ℕ

-- What happens to the client: it starts a request, or one of its streams completes or fails.
pub data Step (t t' : Traffic) : Type 0 where
  starts :
      (has_pool : Bool) (generated : Option RequestSize) (stream : NewStream)
      → (try_start_request has_pool generated t.client).0 ≡ some stream
      → t' ≡ record t {
        client = (try_start_request has_pool generated t.client).1;
        streams = suc t.streams;
      }
      → Step t t'
  completes :
      (success : Bool) (status n : ℕ) (plugins : List Bool)
      → t.streams ≡ suc n
      → t' ≡ record t {
        client = on_complete success status plugins t.client;
        streams = n;
        outcomes = outcome_of success status ∷ t.outcomes;
      }
      → Step t t'
  fails :
      (reason : PoolFailureReason) (n : ℕ)
      → t.streams ≡ suc n
      → t' ≡ record t {
        client = on_pool_failure reason t.client;
        streams = n;
        pool_failures = suc t.pool_failures;
      }
      → Step t t'

pub data Reach (t : Traffic) : Traffic → Type 0 where
  here : Reach t t
  next : {u u' : Traffic} → Reach t u → Step u u' → Reach t u'

-- One if the test holds of the status of a response, and zero for a reset.
abbrev one_if : (ℕ → Bool) → Outcome → ℕ
one_if test reset = 0
one_if test (response status) = if test status then 1 else 0

abbrev pub responses : (ℕ → Bool) → List Outcome → ℕ
responses test [] = 0
responses test (o ∷ outcomes) = one_if test o + responses test outcomes

abbrev pub resets : List Outcome → ℕ
resets [] = 0
resets (reset ∷ outcomes) = 1 + resets outcomes
resets (response status ∷ outcomes) = resets outcomes

-- The statuses of a class, as in 200 .. 299 for 2.
abbrev pub in_class : ℕ → ℕ → Bool
in_class class status = (status / 100) == class

-- The statuses below 100 and from 600 on.
abbrev pub in_no_class : ℕ → Bool
in_no_class status = ltb status 100 || leb 600 status

-- Each counter of completions counts those of its kind, on 64 bits.
pub record IsClassified (outcomes : List Outcome) (k : Counters) : Type 0 where
  pub reset_count : k.stream_resets ≡ resets outcomes % word_size
  pub count_1xx : k.http_1xx ≡ responses (in_class 1) outcomes % word_size
  pub count_2xx : k.http_2xx ≡ responses (in_class 2) outcomes % word_size
  pub count_3xx : k.http_3xx ≡ responses (in_class 3) outcomes % word_size
  pub count_4xx : k.http_4xx ≡ responses (in_class 4) outcomes % word_size
  pub count_5xx : k.http_5xx ≡ responses (in_class 5) outcomes % word_size
  pub count_xxx : k.http_xxx ≡ responses in_no_class outcomes % word_size

-- The requests that were started have completed, failed in the pool or are in flight; each completion
-- is counted as a reset or under the class of its status; and with backpressure those in flight and
-- those that failed in the pool together stay within the limit.
pub record IsCounted (limit : ℕ) (t : Traffic) : Type 0 where
  pub completed : t.client.requests_completed ≡ length t.outcomes % word_size
  pub initiated :
      t.client.requests_initiated
      ≡ (t.client.requests_completed + t.streams + t.pool_failures) % word_size
  pub classified : IsClassified t.outcomes t.client.counters
  pub limited : max_in_flight t.client ≡ limit
  pub backpressure : t.client.provide_resource_backpressure ≡ true
  pub within : t.streams + t.pool_failures ≤ limit

handle_headers-IsClassified :
    (plugins : List Bool) (outcomes : List Outcome) (k : Counters)
    → IsClassified outcomes k
    → IsClassified outcomes (handle_headers plugins k)
unfolding handle_headers
handle_headers-IsClassified [] outcomes k v = v
handle_headers-IsClassified (true ∷ plugins) outcomes k v =
    handle_headers-IsClassified plugins outcomes k v
handle_headers-IsClassified (false ∷ plugins) outcomes k v =
    handle_headers-IsClassified plugins outcomes
      (record k {
        user_defined_plugin_handle_headers_failure =
            inc64 k.user_defined_plugin_handle_headers_failure;
      })
      (record {
        reset_count = v.reset_count;
        count_1xx = v.count_1xx;
        count_2xx = v.count_2xx;
        count_3xx = v.count_3xx;
        count_4xx = v.count_4xx;
        count_5xx = v.count_5xx;
        count_xxx = v.count_xxx;
      })

count_status-IsClassified :
    (status : ℕ) (outcomes : List Outcome) (k : Counters)
    → IsClassified outcomes k
    → IsClassified (response status ∷ outcomes) (count_status status k)
unfolding count_status
count_status-IsClassified status outcomes k v = ground arith

reset-IsClassified :
    (outcomes : List Outcome) (k : Counters)
    → IsClassified outcomes k
    → IsClassified (reset ∷ outcomes) (record k { stream_resets = inc64 k.stream_resets })
reset-IsClassified outcomes k v = ground arith

on_complete-IsClassified :
    (success : Bool) (status : ℕ) (plugins : List Bool) (outcomes : List Outcome)
    (c : BenchmarkClient)
    → IsClassified outcomes c.counters
    → IsClassified
        (outcome_of success status ∷ outcomes)
        (on_complete success status plugins c).counters
unfolding on_complete
on_complete-IsClassified true status plugins outcomes c v =
    handle_headers-IsClassified plugins (response status ∷ outcomes)
      (count_status status c.counters) (count_status-IsClassified status outcomes c.counters v)
on_complete-IsClassified false status plugins outcomes c v =
    let k = c.counters in
    handle_headers-IsClassified plugins (reset ∷ outcomes)
      (record k { stream_resets = inc64 k.stream_resets }) (reset-IsClassified outcomes k v)

module _ (limit : ℕ) (limit_fits : limit < word_size) where
  starts-IsCounted :
      (has_pool : Bool) (generated : Option RequestSize) {stream : NewStream} (t : Traffic)
      → (try_start_request has_pool generated t.client).0 ≡ some stream
      → IsCounted limit t
      → IsCounted limit (record t {
        client = (try_start_request has_pool generated t.client).1;
        streams = suc t.streams;
      })
  unfolding try_start_request max_in_flight
  starts-IsCounted has_pool generated t e v = ground arith

  completes-IsCounted :
      (success : Bool) (status n : ℕ) (plugins : List Bool) (t : Traffic)
      → t.streams ≡ suc n
      → IsCounted limit t
      → IsCounted limit (record t {
        client = on_complete success status plugins t.client;
        streams = n;
        outcomes = outcome_of success status ∷ t.outcomes;
      })
  completes-IsCounted success status n plugins t e v = record {
    completed = unfold on_complete in omega (arith, v.completed);
    initiated = unfold on_complete in omega (arith, v.initiated, e);
    classified = on_complete-IsClassified success status plugins t.outcomes t.client v.classified;
    limited = unfold on_complete max_in_flight in v.limited;
    backpressure = unfold on_complete in v.backpressure;
    within = omega (arith, v.within, e);
  }

  fails-IsCounted :
      (reason : PoolFailureReason) (n : ℕ) (t : Traffic)
      → t.streams ≡ suc n
      → IsCounted limit t
      → IsCounted limit (record t {
        client = on_pool_failure reason t.client;
        streams = n;
        pool_failures = suc t.pool_failures;
      })
  unfolding on_pool_failure max_in_flight
  fails-IsCounted overflow n t e v = ground arith
  fails-IsCounted local_connection_failure n t e v = ground arith
  fails-IsCounted remote_connection_failure n t e v = ground arith
  fails-IsCounted timeout n t e v = ground arith

  pub Step-IsCounted : {t t' : Traffic} → Step t t' → IsCounted limit t → IsCounted limit t'
  Step-IsCounted {t} (starts has_pool generated stream e e') v =
      subst (IsCounted limit) (sym e') (starts-IsCounted has_pool generated t e v)
  Step-IsCounted {t} (completes success status n plugins e e') v =
      subst (IsCounted limit) (sym e') (completes-IsCounted success status n plugins t e v)
  Step-IsCounted {t} (fails reason n e e') v =
      subst (IsCounted limit) (sym e') (fails-IsCounted reason n t e v)

  -- Through any traffic of a client with backpressure: the requests that it started have completed,
  -- failed in the pool or are in flight; each completion is counted exactly once: the stream resets, the
  -- responses with a status of each class, 1xx to 5xx, and those with any other status have their own
  -- counter, which is their number modulo 2^64; and the requests in flight and those
  -- that failed in the pool are together no more than the limit of the configuration.
  pub Reach-IsCounted : {t t' : Traffic} → Reach t t' → IsCounted limit t → IsCounted limit t'
  Reach-IsCounted here v = v
  Reach-IsCounted (next r st) v = Step-IsCounted st (Reach-IsCounted r v)
