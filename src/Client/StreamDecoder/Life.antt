-- ===== src/Client/StreamDecoder/Life.antt =====
-- One request from its start to its deletion: stream_decoder.cc.
use nighthawk.Base.{
  ℕ, ◌+◌, ◌-◌, ◌≡◌, refl, ap, subst, sym, Bool, true, false, List, [], ◌∷◌, Option, none, some,
  arith, if◌then◌else◌,
}
use nighthawk.Client.BenchmarkClient.{PoolFailureReason}
use nighthawk.Client.StreamDecoder.{
  ResetReason, ResponseHeaders, StreamDecoder, on_complete, decode_headers, decode_data,
  decode_trailers, on_reset_stream, on_pool_failure, on_pool_ready, response_flag,
}

-- The callbacks that the pool and the codec make on a decoder; the first number is the time.
pub data Event : Type 0 where
  ready : ℕ → Event
  pool_fails : PoolFailureReason → Event
  headers : ℕ → ResponseHeaders → Bool → Event
  body : ℕ → ℕ → Bool → Event
  trailers : ℕ → Event
  resets : ℕ → ResetReason → Event

unfoldable pub handle : Event → StreamDecoder → StreamDecoder
unfolding on_pool_ready on_pool_failure decode_headers decode_data decode_trailers on_reset_stream
handle (ready now) d = (on_pool_ready now d).1
handle (pool_fails reason) d = on_pool_failure reason d
handle (headers now h end_stream) d = decode_headers now h end_stream d
handle (body now length end_stream) d = decode_data now length end_stream d
handle (trailers now) d = decode_trailers now d
handle (resets now reason) d = on_reset_stream now reason d

-- A sequence of callbacks; a deleted decoder gets none.
unfoldable pub deliver : List Event → StreamDecoder → StreamDecoder
unfolding handle
deliver [] d = d
deliver (e ∷ es) d = if d.deleted then d else deliver es (handle e d)

-- How a request ends.
pub data Ending : Type 0 where
  answered reset : Ending
  unpooled : PoolFailureReason → Ending

-- Whether a callback ends the request.
abbrev pub ending_of : Event → Option Ending
ending_of (ready now) = none
ending_of (pool_fails reason) = some (unpooled reason)
ending_of (headers now h end_stream) = if end_stream then some answered else none
ending_of (body now length end_stream) = if end_stream then some answered else none
ending_of (trailers now) = some answered
ending_of (resets now reason) = some reset

abbrev pub first_ending : List Event → Option Ending
first_ending [] = none
first_ending (e ∷ es) = elim (ending_of e) [ none ↦ first_ending es | some x ↦ some x ]

-- The reports of a request that has not ended.
pub record IsLive (d : StreamDecoder) : Type 0 where
  pub kept : d.deleted ≡ false
  pub incomplete : d.complete ≡ false
  pub not_called : d.caller_calls ≡ []
  pub not_completed : d.client_completions ≡ []
  pub not_failed : d.client_pool_failures ≡ []
  pub no_latency : d.latency_statistic ≡ []
  pub no_body_size : d.response_body_sizes ≡ []

abbrev pub completions : Ending → List Bool
completions answered = true ∷ []
completions reset = false ∷ []
completions (unpooled reason) = []

abbrev pub pool_failures : Ending → List PoolFailureReason
pool_failures answered = []
pool_failures reset = []
pool_failures (unpooled reason) = reason ∷ []

abbrev pub succeeded : Ending → Bool
succeeded answered = true
succeeded reset = false
succeeded (unpooled reason) = false

-- The reports of a request that has ended: one call of the caller, with the two flags equal, one
-- report to the client, and a latency only if it was answered.
pub record IsOver (ending : Ending) (d : StreamDecoder) : Type 0 where
  pub freed : d.deleted ≡ true
  pub called_once : d.caller_calls ≡ (succeeded ending, succeeded ending) ∷ []
  pub completed_once : d.client_completions ≡ completions ending
  pub failed_once : d.client_pool_failures ≡ pool_failures ending
  pub measured :
      (latency : ℕ) × (d.latency_statistic
        ≡ (if succeeded ending then (if d.measure_latencies then latency ∷ [] else []) else []))

abbrev pub Reported : Option Ending → StreamDecoder → Type 0
Reported none d = IsLive d
Reported (some ending) d = IsOver ending d

-- Nothing was reported yet.
abbrev Blank : StreamDecoder → Type 0
Blank d =
    (d.caller_calls ≡ [])
    × (d.client_completions ≡ [])
    × (d.client_pool_failures ≡ [])
    × (d.latency_statistic ≡ [])

abbrev completed_as : Bool → Ending
completed_as true = answered
completed_as false = reset

on_complete-IsOver :
    (now : ℕ) (success : Bool) (d : StreamDecoder)
    → Blank d
    → d.complete ≡ success
    → IsOver (completed_as success) (on_complete now success d)
unfolding on_complete
on_complete-IsOver now true d b c = record {
  freed = refl;
  called_once = ground arith;
  completed_once = ground arith;
  failed_once = ground arith;
  measured = (now - d.request_start, ground arith);
}
on_complete-IsOver now false d b c = record {
  freed = refl;
  called_once = ground arith;
  completed_once = ground arith;
  failed_once = ground arith;
  measured = (0, ground arith);
}

handle-Reported : (e : Event) (d : StreamDecoder) → IsLive d → Reported (ending_of e) (handle e d)
unfolding handle
handle-Reported (ready now) d v = ground arith
handle-Reported (pool_fails reason) d v = record {
  freed = refl;
  called_once = ground arith;
  completed_once = ground arith;
  failed_once = ground arith;
  measured = (0, ground arith);
}
handle-Reported (headers now h true) d v =
    on_complete-IsOver now true _ (v.not_called, v.not_completed, v.not_failed, v.no_latency) refl
handle-Reported (headers now h false) d v = ground arith
handle-Reported (body now length true) d v =
    let over =
      on_complete-IsOver now true (record d { complete = true; bytes_sent = d.bytes_sent + length })
        (v.not_called, v.not_completed, v.not_failed, v.no_latency) refl in
    record {
      freed = over.freed;
      called_once = over.called_once;
      completed_once = over.completed_once;
      failed_once = over.failed_once;
      measured = over.measured;
    }
handle-Reported (body now length false) d v = ground arith
handle-Reported (trailers now) d v =
    on_complete-IsOver now true _ (v.not_called, v.not_completed, v.not_failed, v.no_latency) refl
handle-Reported (resets now reason) d v =
    on_complete-IsOver now false
      (record d { response_flags = response_flag reason ∷ d.response_flags })
      (v.not_called, v.not_completed, v.not_failed, v.no_latency) v.incomplete

deliver_deleted : (es : List Event) (d : StreamDecoder) → d.deleted ≡ true → deliver es d ≡ d
unfolding deliver
deliver_deleted [] d h = refl
deliver_deleted (e ∷ es) d h = rw h refl

deliver_kept :
    (e : Event) (es : List Event) (d : StreamDecoder)
    → d.deleted ≡ false
    → deliver (e ∷ es) d ≡ deliver es (handle e d)
unfolding deliver
deliver_kept e es d h = ap (λ b. if b then d else deliver es (handle e d)) h

-- Whatever callbacks arrive in whatever order at a request that has reported nothing: until one of them ends the request nothing is
-- reported; the first one that does leads to exactly one call of the caller, exactly one report to
-- the client, by onComplete() or by onPoolFailure() according to how it ended, and the deletion
-- of the decoder. The flags of the caller's call agree, and are true only for an answer. A latency is
-- recorded at most once, and only if the request was answered and latencies are measured.
pub deliver-Reported :
    (es : List Event) (d : StreamDecoder) → IsLive d → Reported (first_ending es) (deliver es d)
unfolding deliver
deliver-Reported [] d v = v
deliver-Reported (e ∷ es) d v =
    subst (Reported (first_ending (e ∷ es))) (sym (deliver_kept e es d v.kept))
      (go (ending_of e) (handle-Reported e d v) (λ live. deliver-Reported es (handle e d) live))
  where
    go :
        (o : Option Ending)
        → Reported o (handle e d)
        → (IsLive (handle e d) → Reported (first_ending es) (deliver es (handle e d)))
        → Reported (elim o [ none ↦ first_ending es | some x ↦ some x ]) (deliver es (handle e d))
    go none live rest = rest live
    go (some x) over rest = rw (deliver_deleted es (handle e d) over.freed) over
