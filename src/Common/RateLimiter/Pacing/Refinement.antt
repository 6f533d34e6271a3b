-- ===== src/Common/RateLimiter/Pacing/Refinement.antt =====
-- The time-based limiters of rate_limiter_impl.cc against a plain counter that grants an
-- acquisition whenever fewer have been granted than the elapsed time allows.
use nighthawk.Base.{
  ℕ, ◌+◌, ◌-◌, ◌≤◌, ◌<◌, ◌≡◌, refl, Bool, ap₂, List, [], ◌∷◌, Option, none, some, arith, ltb,
  if◌then◌else◌, is_positive64, sign_bit, Option-cases, ◌∙◌, inl, inr,
}
use nighthawk.Common.RateLimiter.{Now, base_elapsed}
use nighthawk.Common.RateLimiter.Pacing.{
  Counts, no_counts, take_one, try_acquire, give_back, is_nonzero,
}

-- The calls that change a limiter.
pub data Call : Type 0 where
  acquire : Now → Call
  release : Call

-- The time of the first acquisition, and how many acquisitions were granted and not given back.
pub record Ledger : Type 0 where
  pub start : Option ℕ
  pub granted : ℕ

abbrev pub start_or : Option ℕ → ℕ → ℕ
start_or none t = t
start_or (some s) t = s

abbrev pub empty_ledger : Ledger
empty_ledger = record { start = none; granted = 0 }

module _ (quota : ℕ → ℕ) where
  -- What the ledger allows at a time.
  abbrev pub allowance : Ledger → ℕ → ℕ
  allowance s t = quota (t - start_or s.start t)

  abbrev pub ledger_grants : Ledger → ℕ → Bool
  ledger_grants s t = ltb s.granted (allowance s t)

  abbrev pub ledger_step : Ledger → Call → Ledger
  ledger_step s (acquire now) = record {
    start = some (start_or s.start now.monotonic_time);
    granted = if ledger_grants s now.monotonic_time then s.granted + 1 else s.granted;
  }
  ledger_step s release = record s { granted = s.granted - 1 }

  abbrev pub ledger_answers : Ledger → List Call → List Bool
  ledger_answers s [] = []
  ledger_answers s (acquire now ∷ calls) =
      ledger_grants s now.monotonic_time ∷ ledger_answers (ledger_step s (acquire now)) calls
  ledger_answers s (release ∷ calls) = ledger_answers (ledger_step s release) calls

  -- Calls in the order of the clock, that give back only what was granted, and short enough for the
  -- counts to fit an int64_t.
  abbrev pub IsOrderly : ℕ → Ledger → List Call → Type 0
  IsOrderly last s [] = Unit {0}
  IsOrderly last s (acquire now ∷ calls) =
      (last ≤ now.monotonic_time)
      × (allowance s now.monotonic_time < sign_bit)
      × IsOrderly now.monotonic_time (ledger_step s (acquire now)) calls
  IsOrderly last s (release ∷ calls) =
      (0 < s.granted) × IsOrderly last (ledger_step s release) calls

  unfoldable pub answers : (ℕ → Bool) → Counts → List Call → List Bool
  unfolding try_acquire give_back
  answers available c [] = []
  answers available c (acquire now ∷ calls) =
      let (granted, c') = try_acquire quota available now c in granted ∷ answers available c' calls
  answers available c (release ∷ calls) = answers available (give_back c) calls

-- A limiter agrees with a ledger: what it counted is granted or still to be granted, within the
-- allowance at the time of the last call.
pub record Agrees (quota : ℕ → ℕ) (last : ℕ) (s : Ledger) (c : Counts) : Type 0 where
  pub same_start : c.timing.start_time ≡ s.start
  pub same_count : c.acquired_count ≡ s.granted
  pub within : c.acquireable_count + s.granted ≤ allowance quota s last
  pub fits : c.acquireable_count + s.granted < sign_bit
  pub unstarted : s.start ≡ none → c.acquireable_count + s.granted ≡ 0

module _ (quota : ℕ → ℕ) (quota_mono : (a b : ℕ) → a ≤ b → quota a ≤ quota b) (available : ℕ → Bool)
    (available_lem : (w : ℕ) → w < sign_bit → available w ≡ ltb 0 w) where
  step-Agrees :
      (last : ℕ) (s : Ledger) (c : Counts) (now : Now)
      → last ≤ now.monotonic_time
      → allowance quota s now.monotonic_time < sign_bit
      → Agrees quota last s c
      → ((try_acquire quota available now c).0 ≡ ledger_grants quota s now.monotonic_time)
        × Agrees quota now.monotonic_time
            (ledger_step quota s (acquire now))
            (try_acquire quota available now c).1
  unfolding try_acquire take_one base_elapsed
  step-Agrees last s c now le fits a = elim (Option-cases s.start) [
    | inl e ↦ ground (arith, available_lem c.acquireable_count, a.unstarted e, a.same_start ∙ e)
    | inr (start, e) ↦ ground (
      arith,
      available_lem c.acquireable_count,
      a.same_start ∙ e,
      quota_mono (last - start) (now.monotonic_time - start),
    )
  ]

  give_back-Agrees :
      (last : ℕ) (s : Ledger) (c : Counts)
      → 0 < s.granted
      → Agrees quota last s c
      → Agrees quota last (ledger_step quota s release) (give_back c)
  unfolding give_back
  give_back-Agrees last s c pos a = ground arith

  answers-ledger_answers :
      (last : ℕ) (s : Ledger) (c : Counts) (calls : List Call)
      → Agrees quota last s c
      → IsOrderly quota last s calls
      → answers quota available c calls ≡ ledger_answers quota s calls
  unfolding answers
  answers-ledger_answers last s c [] a o = refl
  answers-ledger_answers last s c (acquire now ∷ calls) a o =
      let (same, a') = step-Agrees last s c now o.0 o.1 a in
      let rest =
        answers-ledger_answers now.monotonic_time (ledger_step quota s (acquire now))
          (try_acquire quota available now c).1 calls a' o.2 in
      ap₂ (λ b bs. b ∷ bs) same rest
  answers-ledger_answers last s c (release ∷ calls) a o =
      answers-ledger_answers last (ledger_step quota s release) (give_back c) calls
        (give_back-Agrees last s c o.0 a) o.1

  -- From a new limiter, the answers to any orderly sequence of calls are those of the ledger: an
  -- acquisition is granted exactly when fewer acquisitions are outstanding than the quota of the
  -- time since the first call allows. The quota grows with time, and the test of the counter
  -- is right on counts below 2^63.
  pub answers_new :
      (calls : List Call)
      → IsOrderly quota 0 empty_ledger calls
      → answers quota available no_counts calls ≡ ledger_answers quota empty_ledger calls
  answers_new calls o = answers-ledger_answers 0 empty_ledger no_counts calls new_Agrees o
    where
      new_Agrees : Agrees quota 0 empty_ledger no_counts
      new_Agrees = record {
        same_start = refl;
        same_count = refl;
        within = omega arith;
        fits = omega arith;
        unstarted = λ _. refl;
      }

pub is_positive64-ltb : (w : ℕ) → w < sign_bit → is_positive64 w ≡ ltb 0 w
is_positive64-ltb w h = ground arith

pub is_nonzero-ltb : (w : ℕ) → w < sign_bit → is_nonzero w ≡ ltb 0 w
is_nonzero-ltb w h = ground arith
