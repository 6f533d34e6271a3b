-- ===== src/Client/Options/Fields.antt =====
-- The members that come back from their fields of the message: source/client/options_impl.cc.
use nighthawk.Base.{
  ℕ, ◌*◌, ◌/◌, ◌<◌, ◌≡◌, refl, sym, ap, ap₂, ◌∙◌, subst, Bool, true, false, not, ◌&&◌,
  if◌then◌else◌, ltb, ◌==◌, Bool-cases, inl, inr, List, [], ◌∷◌, ◌++◌, map, Option, none, some,
  arith,
}
use nighthawk.Base.Chars.{Chars, is_empty, strip_ascii_whitespace}
use nighthawk.Base.Result.{ok, ok-injective, bind-ok}
use nighthawk.Client.Options.{Options, Duration, http1, PredicateMap}
use nighthawk.Client.Options.Message.{HeaderValueOption, RequestChoice, Messages, wrapped_or}
use nighthawk.Client.Options.Headers.{
  split_header, header_of, parse_header, parse_headers, print_header,
}
use nighthawk.Client.Options.Predicates.{
  IsFresh, assign_all, insert_all, assign_all-fresh, insert_all-fresh,
}
use nighthawk.Client.Options.ToMessage.{
  duration_choice, protocol_choice, uri_choice, flush_choice, request_choice, static_request,
  set_endpoint, jitter_field, start_field, nanoseconds_to_duration, is_positive_duration,
}
use nighthawk.Client.Options.FromMessage.{
  read_duration, read_no_duration, read_h2, read_protocol, read_flush_interval, read_flush_duration,
  read_failure_predicates, read_uri, read_path, read_use_https, read_endpoints, read_headers,
  read_method, read_body_size, read_source, read_source_plugin, read_jitter, read_start,
  copy_message, duration_to_nanoseconds, seconds_of, start_of,
}
use nighthawk.Client.Options.Canonical.{
  MessageLaws, canonical_header, canonical_endpoint, is_some, is_static_request, to_microseconds,
  has_flush_duration,
}

print_header-header_of :
    (header : Chars) (parts : Option (Chars × Chars)) (h : HeaderValueOption)
    → header_of parts ≡ ok h
    → print_header h ≡ elim parts [
      | some (key, value) ↦ strip_ascii_whitespace key ++ (58 ∷ strip_ascii_whitespace value)
      | none ↦ header
    ]
unfolding header_of print_header
print_header-header_of header none h e = ground (arith, e)
print_header-header_of header (some (key, value)) h e = ap print_header (sym (ok-injective _ h e))

-- A text is printed as the canonical header.
print_header-parse_header :
    (header : Chars) (h : HeaderValueOption)
    → parse_header header ≡ ok h
    → print_header h ≡ canonical_header header
unfolding parse_header
print_header-parse_header header h parsed =
    print_header-header_of header (split_header header) h parsed

pub print_header-parse_headers :
    (headers : List Chars) (hs : List HeaderValueOption)
    → parse_headers headers ≡ ok hs
    → map print_header hs ≡ map canonical_header headers
unfolding parse_headers
print_header-parse_headers [] hs parsed = ap (map print_header) (sym (ok-injective [] hs parsed))
print_header-parse_headers (header ∷ headers) hs parsed =
    let (first, h1, rest) = bind-ok (parse_header header) _ hs parsed in
    let (others, h2, e) = bind-ok (parse_headers headers) _ hs rest in
    ap (map print_header) (sym (ok-injective (first ∷ others) hs e))
    ∙ ap₂ (λ x xs. x ∷ xs) (print_header-parse_header header first h1)
        (print_header-parse_headers headers others h2)

pub seconds_of-fits :
    (n k : ℕ) → n < 4294967296 → seconds_of (record { seconds = n; nanos = k }) ≡ n
unfolding seconds_of
seconds_of-fits n k h = omega (arith, h)

pub duration_to_nanoseconds-nanoseconds_to_duration :
    (n : ℕ) → duration_to_nanoseconds (nanoseconds_to_duration n) ≡ n
unfolding duration_to_nanoseconds nanoseconds_to_duration
duration_to_nanoseconds-nanoseconds_to_duration n = omega arith

pub start_of-nanoseconds_to_duration :
    (n : ℕ) → start_of (nanoseconds_to_duration n) ≡ (n / 1000) * 1000
unfolding start_of nanoseconds_to_duration
start_of-nanoseconds_to_duration n = omega arith

configured_predicates :
    (initial : PredicateMap) (p : Chars × ℕ) (ps : PredicateMap) (no_default : Bool)
    → IsFresh (p ∷ ps) []
    → read_failure_predicates initial no_default (p ∷ ps) ≡ p ∷ ps
unfolding read_failure_predicates
configured_predicates initial p ps true fresh = assign_all-fresh (p ∷ ps) [] fresh
configured_predicates initial p ps false fresh = assign_all-fresh (p ∷ ps) [] fresh

pub failure_predicates_lem :
    (initial predicates : PredicateMap) (no_default : Bool)
    → IsFresh predicates []
    → read_failure_predicates initial no_default (insert_all predicates [])
      ≡ (if is_empty predicates && not no_default then initial else predicates)
unfolding read_failure_predicates insert_all assign_all
failure_predicates_lem initial [] true fresh = refl
failure_predicates_lem initial [] false fresh = refl
failure_predicates_lem initial (p ∷ ps) no_default fresh =
    ap (read_failure_predicates initial no_default) (insert_all-fresh (p ∷ ps) [] fresh)
    ∙ configured_predicates initial p ps no_default fresh

pub termination_predicates_lem :
    (predicates : PredicateMap)
    → IsFresh predicates []
    → assign_all (insert_all predicates []) [] ≡ predicates
termination_predicates_lem predicates fresh =
    ap (λ ps. assign_all ps []) (insert_all-fresh predicates [] fresh)
    ∙ assign_all-fresh predicates [] fresh

pub jitter_lem : (jitter : ℕ) → read_jitter 0 (jitter_field jitter) ≡ jitter
unfolding read_jitter jitter_field
jitter_lem jitter = elim (Bool-cases (ltb 0 jitter)) [
  | inl h ↦ rw h (duration_to_nanoseconds-nanoseconds_to_duration jitter)
  | inr h ↦ rw h (ground (arith, h))
]

pub scheduled_start_lem :
    (start : Option ℕ) → read_start (start_field start) ≡ to_microseconds start
unfolding read_start start_field
scheduled_start_lem none = refl
scheduled_start_lem (some t) = ap some (start_of-nanoseconds_to_duration t)

zero_duration :
    (d : Duration) → is_positive_duration d ≡ false → record { seconds = 0; nanos = 0 } ≡ d
unfolding is_positive_duration
zero_duration d h =
    let s : 0 ≡ d.seconds = ground (arith, h) in
    let n : 0 ≡ d.nanos = ground (arith, h) in λ i. record { seconds = s i; nanos = n i }

module _ {M : Type 0} (o : Options M) where
  pub duration_lem :
      o.duration < 4294967296
      → read_duration 5 (some (duration_choice o)) ≡ (if o.no_duration then 5 else o.duration)
  unfolding read_duration duration_choice
  duration_lem fits = elim (Bool-cases o.no_duration) [
    | inl h ↦ rw h refl
    | inr h ↦ rw h (seconds_of-fits o.duration 0 fits)
  ]

  pub no_duration_lem : read_no_duration false (some (duration_choice o)) ≡ o.no_duration
  unfolding read_no_duration duration_choice
  no_duration_lem = elim (Bool-cases o.no_duration) [ inl h ↦ rw h refl | inr h ↦ rw h refl ]

  pub h2_lem : read_h2 false (some (protocol_choice o)) ≡ o.h2
  unfolding read_h2 protocol_choice
  h2_lem = elim (Bool-cases o.h2) [ inl h ↦ rw h refl | inr h ↦ rw h refl ]

  pub protocol_lem :
      read_protocol http1 (some (protocol_choice o)) ≡ (if o.h2 then http1 else o.protocol)
  unfolding read_protocol protocol_choice
  protocol_lem = elim (Bool-cases o.h2) [ inl h ↦ rw h refl | inr h ↦ rw h refl ]

  pub stats_flush_interval_lem :
      read_flush_interval 5 (some (flush_choice o))
      ≡ (if has_flush_duration o then 5 else o.stats_flush_interval)
  unfolding read_flush_interval flush_choice is_positive_duration
  stats_flush_interval_lem = ground arith

  pub stats_flush_duration_lem :
      read_flush_duration (record { seconds = 0; nanos = 0 }) (some (flush_choice o))
      ≡ o.stats_flush_interval_duration
  unfolding read_flush_duration flush_choice is_positive_duration
  stats_flush_duration_lem =
      elim (Bool-cases (is_positive_duration o.stats_flush_interval_duration)) [
        | inl h ↦ rw h refl
        | inr h ↦ rw h (zero_duration o.stats_flush_interval_duration h)
      ]

  -- By the URI.
  pub target_lem :
      (uri : Option Chars)
      → (read_uri none (some (uri_choice o uri)) ≡ uri)
        × (read_path [] (some (uri_choice o uri))
            ≡ (if is_some uri then [] else o.multi_target_path))
        × (read_use_https false (some (uri_choice o uri))
            ≡ (if is_some uri then false else o.multi_target_use_https))
        × (read_endpoints (some (uri_choice o uri))
            ≡ (if is_some uri then [] else map canonical_endpoint o.multi_target_endpoints))
  unfolding read_uri read_path read_use_https read_endpoints uri_choice set_endpoint
  target_lem none = (refl, refl, refl, refl)
  target_lem (some uri) = (refl, refl, refl, refl)

  module _ (messages : Messages M) (laws : MessageLaws messages) where
    pub tls_context_lem :
        messages.merge_from messages.empty (
          wrapped_or
            (if ltb 0 (messages.byte_size o.tls_context) then some o.tls_context else none)
            messages.empty)
        ≡ o.tls_context
    tls_context_lem = elim (Bool-cases (ltb 0 (messages.byte_size o.tls_context))) [
      | inl h ↦ rw h (laws.merge_from-empty o.tls_context)
      | inr h ↦
          rw h (laws.merge_from-empty messages.empty ∙ sym (laws.byte_size-zero o.tls_context h))
    ]

    pub copy_message_lem : (m : Option M) → copy_message messages m ≡ m
    unfolding copy_message
    copy_message_lem none = refl
    copy_message_lem (some m) = ap some (laws.merge_from-empty m)

    static_request_lem :
        (hs : List HeaderValueOption)
        → parse_headers o.request_headers ≡ ok hs
        → (read_headers (some (static_request o hs)) ≡ map canonical_header o.request_headers)
          × (read_method 1 (some (static_request o hs))
              ≡ (if not (o.request_method == 0) then o.request_method else 1))
          × (read_body_size 0 (some (static_request o hs))
              ≡ (if not (is_empty o.request_headers) then o.request_body_size else 0))
    unfolding read_headers read_method read_body_size static_request
    static_request_lem hs parsed = (
      print_header-parse_headers o.request_headers hs parsed,
      elim (Bool-cases (o.request_method == 0)) [ inl h ↦ rw h refl | inr h ↦ rw h refl ],
      elim (Bool-cases (is_empty o.request_headers)) [ inl h ↦ rw h refl | inr h ↦ rw h refl ],
    )

    -- What is read of the choice among the request options.
    abbrev ReadsRequest : Chars → Option M → RequestChoice M → Type 0
    ReadsRequest source plugin r =
        (read_headers (some r) ≡ (
          if is_static_request source plugin then map canonical_header o.request_headers else []))
        × (read_method 1 (some r) ≡ (
            if is_static_request source plugin && not (o.request_method == 0)
            then o.request_method
            else 1))
        × (read_body_size 0 (some r) ≡ (
            if is_static_request source plugin && not (is_empty o.request_headers)
            then o.request_body_size
            else 0))
        × (read_source [] (some r) ≡ source)
        × (read_source_plugin messages (some r) ≡ (if is_empty source then plugin else none))

    pub request_lem :
        (source : Chars) (plugin : Option M) (r : RequestChoice M)
        → request_choice o source plugin ≡ ok r
        → ReadsRequest source plugin r
    unfolding request_choice read_headers read_method read_body_size read_source read_source_plugin
        static_request
    request_lem (c ∷ cs) plugin r h =
        subst (ReadsRequest (c ∷ cs) plugin) (ok-injective _ r h) (refl, refl, refl, refl, refl)
    request_lem [] (some config) r h =
        subst (ReadsRequest [] (some config)) (ok-injective _ r h)
          (refl, refl, refl, refl, ap some (laws.merge_from-empty config))
    request_lem [] none r h =
        let (hs, parsed, e) =
          bind-ok (parse_headers o.request_headers) (λ headers. ok (static_request o headers)) r
            h in
        let (headers, method, size) = static_request_lem hs parsed in
        subst (ReadsRequest [] none) (ok-injective _ r e) (headers, method, size, refl, refl)
