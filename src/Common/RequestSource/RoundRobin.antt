-- ===== src/Common/RequestSource/RoundRobin.antt =====
-- The order in which OptionsListRequestSource goes through its list:
-- request_options_list_plugin_impl.cc.
use native.Mathlib.Nat.{mod-lt}
use nighthawk.Base.{
  ℕ, zero, suc, ◌+◌, ◌%◌, ◌<◌, ◌≤◌, ◌≡◌, ◌≢◌, ◌⊎◌, refl, Option, none, some, arith, List, [], ◌∷◌,
  length, get_elem?, ℕ_discrete, dec_lt, ◌==◌, ltb, inl, inr, if◌then◌else◌, min, ◌||◌,
}
use mathlib.Core.Option
use nighthawk.Common.RequestSource.{
  Header, RequestOptions, Request, Text, build_request, options_list_next,
}

module _ (text : Text) (options : List RequestOptions) (total_requests : ℕ)
    (defaults : List Header) where
  -- The counter after k calls of a generator, and the answer to the call after them.
  unfoldable pub counter_after : ℕ → ℕ
  counter_after zero = 0
  counter_after (suc k) =
      (options_list_next text options total_requests defaults (counter_after k)).1

  abbrev pub list_answer : ℕ → Option Request
  list_answer k = (options_list_next text options total_requests defaults (counter_after k)).0

  -- How many requests k calls have yielded.
  abbrev pub yielded : ℕ → ℕ
  yielded k = if total_requests == 0 then k else min k total_requests

  get_elem?-some :
      (xs : List RequestOptions) (i : ℕ)
      → i < length xs
      → (o : RequestOptions) × (get_elem? xs i ≡ some o)
  get_elem?-some [] i h = absurd (omega arith)
  get_elem?-some (x ∷ xs) zero h = (x, refl)
  get_elem?-some (x ∷ xs) (suc i) h = get_elem?-some xs i (omega arith)

  module _ (nonempty : 0 < length options) (total_fits : total_requests < 4294967296) where
    open_next :
        (c : ℕ)
        → (total_requests ≡ 0) ⊎ (c < total_requests)
        → c + 1 < 4294967296
        → options_list_next text options total_requests defaults c ≡ (
          Option.map (build_request text defaults) (get_elem? options (c % length options)),
          c + 1,
        )
    unfolding options_list_next
    open_next c going fits =
        let (o, e) = get_elem?-some options (c % length options) (mod-lt c nonempty) in
        rw (e, options_list_next) (ground (arith, e))

    closed_next :
        (c : ℕ)
        → total_requests ≢ 0
        → total_requests ≤ c
        → options_list_next text options total_requests defaults c ≡ (none, c)
    unfolding options_list_next
    closed_next c limited over = ground arith

    counter_after-yielded : (k : ℕ) → k < 4294967296 → counter_after k ≡ yielded k
    unfolding counter_after
    counter_after-yielded zero h = ground arith
    counter_after-yielded (suc k) h = grind (
      arith,
      counter_after-yielded k (omega arith),
      open_next (yielded k),
      closed_next (yielded k),
    )

    open_answer :
        (k : ℕ)
        → (total_requests ≡ 0) ⊎ (k < total_requests)
        → k + 1 < 4294967296
        → list_answer k
          ≡ Option.map (build_request text defaults) (get_elem? options (k % length options))
    open_answer k going h =
        let at_k : counter_after k ≡ k = ground (arith, counter_after-yielded k (omega arith)) in
        rw (list_answer, at_k) (rw (open_next k going h) refl)

    closed_answer :
        (k : ℕ)
        → total_requests ≢ 0
        → total_requests ≤ k
        → k + 1 < 4294967296
        → list_answer k ≡ none
    closed_answer k limited over h =
        let at_total : counter_after k ≡ total_requests =
          ground (arith, counter_after-yielded k (omega arith)) in
        rw (list_answer, at_total) (rw (closed_next total_requests limited (omega arith)) refl)

    -- From a list with entries the generator yields the requests of the entries in turn, starting
    -- again at the first one after the last, until total_requests of them were yielded, and nothing
    -- from then on; with total_requests 0 it never stops. (For calls before the counter wraps.)
    pub list_answer_lem :
        (k : ℕ)
        → k + 1 < 4294967296
        → list_answer k ≡ (
            if total_requests == 0 || ltb k total_requests
            then Option.map (build_request text defaults) (get_elem? options (k % length options))
            else none)
    list_answer_lem k h = elim (ℕ_discrete total_requests 0) [
      | yes free ↦ rw (open_answer k (inl free) h) (ground arith)
      | no limited ↦ elim (dec_lt k total_requests) [
        | yes below ↦ rw (open_answer k (inr below) h) (ground arith)
        | no over ↦ rw (closed_answer k limited (omega arith) h) (ground arith)
      ]
    ]
