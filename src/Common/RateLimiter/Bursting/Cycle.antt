-- ===== src/Common/RateLimiter/Bursting/Cycle.antt =====
-- The two modes of BurstingRateLimiter, rate_limiter_impl.cc.
use native.Mathlib.Nat.{mod-eq_of_lt, mod_self}
use nighthawk.Base.{
  ℕ, zero, suc, ◌+◌, ◌≤◌, ◌<◌, ◌≡◌, refl, Bool, true, false, ltb, some, arith, word_size,
  ℕ_discrete, ◌≢◌, Bool-cases, inl, inr, inc64, ◌==◌, ◌%◌,
}
use nighthawk.Common.RateLimiter.{Now, RateLimiter}
use nighthawk.Common.RateLimiter.Bursting.{
  BurstingRateLimiter, release_burst, collect, enter_release, keep_saving, accumulate,
  bursting_try_acquire, bursting_release,
}

-- In release mode there is something to hand out; otherwise a burst is not yet full.
abbrev pub Level : Bool → ℕ → ℕ → Type 0
Level true accumulated burst_size = (0 < accumulated) × (accumulated ≤ burst_size)
Level false accumulated burst_size = accumulated < burst_size

pub record IsValid {S : Type 0} (b : BurstingRateLimiter S) : Type 0 where
  pub fits : b.burst_size < word_size
  pub level : Level b.releasing b.accumulated b.burst_size

abbrev pub one_if : Bool → ℕ
one_if true = 1
one_if false = 0

-- What a call of tryAcquireOne() does, where `granted` counts what the wrapped limiter granted.
pub record Outcome {S : Type 0} (granted : S → ℕ) (b : BurstingRateLimiter S)
    (r : Bool × BurstingRateLimiter S) : Type 0 where
  pub valid : IsValid r.1
  pub same_size : r.1.burst_size ≡ b.burst_size
  -- nothing is lost or made up
  pub balance :
      r.1.accumulated + one_if r.0 + granted b.rate_limiter
      ≡ b.accumulated + granted r.1.rate_limiter
  -- in release mode the wrapped limiter is not asked
  pub undisturbed :
      b.releasing ≡ true
      → r ≡ (
        true,
        record b {
          accumulated = r.1.accumulated;
          releasing = r.1.releasing;
          previously_releasing = some true;
        },
      )
  -- a burst starts only when it is full
  pub full : b.releasing ≡ false → r.0 ≡ true → r.1.accumulated + 1 ≡ b.burst_size
  -- the ASSERTs of releaseOne() hold after a grant
  pub releasable :
      r.0 ≡ true → (r.1.accumulated < b.burst_size) × (r.1.previously_releasing ≡ some true)
  pub refused : r.0 ≡ false → r.1.releasing ≡ false

full_burst : (n acc : ℕ) → acc < n → n < word_size → acc + 1 ≡ n → (inc64 acc % n == 0) ≡ true
full_burst n acc lt small e = ground (arith, mod_self n, mod-eq_of_lt {n = inc64 acc} {m = n})

part_burst : (n acc : ℕ) → acc < n → n < word_size → acc + 1 ≢ n → (inc64 acc % n == 0) ≡ false
part_burst n acc lt small e = ground (arith, mod-eq_of_lt {n = acc + 1} {m = n} (omega arith))

below_burst :
    {S : Type 0} {b : BurstingRateLimiter S}
    → b.releasing ≡ false
    → IsValid b
    → b.accumulated < b.burst_size
below_burst mode v = ground arith

module _ {S : Type 0} (inner : RateLimiter S) (granted : S → ℕ)
    (granted_lem : (now : Now) (s : S)
      → granted (inner.try_acquire_one now s).1
        ≡ granted s + one_if (inner.try_acquire_one now s).0) where
  -- The parts of a round of the loop, in its three cases.
  module _ (now : Now) (b : BurstingRateLimiter S) (mode : b.releasing ≡ false) (v : IsValid b)
      (more : (inner.try_acquire_one now b.rate_limiter).0 ≡ true) where
    full_Outcome :
        b.accumulated + 1 ≡ b.burst_size
        → Outcome granted b
            (release_burst (enter_release (collect (inner.try_acquire_one now b.rate_limiter).1 b)))
    unfolding release_burst collect enter_release
    full_Outcome e = ground (arith, granted_lem now b.rate_limiter, below_burst mode v)

    part_IsValid :
        b.accumulated + 1 ≢ b.burst_size
        → IsValid (collect (inner.try_acquire_one now b.rate_limiter).1 b)
    unfolding collect
    part_IsValid e = ground (arith, below_burst mode v)

    part_Outcome :
        {r : Bool × BurstingRateLimiter S}
        → b.accumulated + 1 ≢ b.burst_size
        → Outcome granted (collect (inner.try_acquire_one now b.rate_limiter).1 b) r
        → Outcome granted b r
    unfolding collect
    part_Outcome e o = ground (arith, granted_lem now b.rate_limiter, below_burst mode v)

  stopped_Outcome :
      (now : Now) (b : BurstingRateLimiter S)
      → b.releasing ≡ false
      → IsValid b
      → (inner.try_acquire_one now b.rate_limiter).0 ≡ false
      → Outcome granted b (false, keep_saving (inner.try_acquire_one now b.rate_limiter).1 b)
  unfolding keep_saving
  stopped_Outcome now b mode v stop = ground (arith, granted_lem now b.rate_limiter)

  accumulate_lem :
      (fuel : ℕ) (now : Now) (b : BurstingRateLimiter S)
      → b.burst_size ≤ fuel + b.accumulated
      → b.releasing ≡ false
      → IsValid b
      → (r : Bool × BurstingRateLimiter S) × (accumulate fuel inner now b ≡ some r)
        × Outcome granted b r
  unfolding accumulate
  accumulate_lem zero now b enough mode v = absurd (omega (arith, below_burst mode v))
  accumulate_lem (suc fuel) now b enough mode v =
      let s = (inner.try_acquire_one now b.rate_limiter).1 in
      let low = below_burst mode v in
      elim (Bool-cases (inner.try_acquire_one now b.rate_limiter).0) [
        | inl more ↦ elim (ℕ_discrete (b.accumulated + 1) b.burst_size) [
          | yes e ↦ (
            release_burst (enter_release (collect s b)),
            rw (more, full_burst b.burst_size b.accumulated low v.fits e) refl,
            full_Outcome now b mode v more e,
          )
          | no e ↦
              let (r, found, outcome) =
                accumulate_lem fuel now (collect s b) (omega (arith, low, v.fits)) mode
                  (part_IsValid now b mode v more e) in
              (
                r,
                rw (more, part_burst b.burst_size b.accumulated low v.fits e) found,
                part_Outcome now b mode v more e outcome,
              )
        ]
        | inr stop ↦ ((false, keep_saving s b), rw stop refl, stopped_Outcome now b mode v stop)
      ]

  release_burst-Outcome :
      (b : BurstingRateLimiter S)
      → b.releasing ≡ true
      → IsValid b
      → Outcome granted b (release_burst (record b { previously_releasing = some b.releasing }))
  unfolding release_burst
  release_burst-Outcome b mode v = ground arith

  saving_Outcome :
      (b : BurstingRateLimiter S) {r : Bool × BurstingRateLimiter S}
      → b.releasing ≡ false
      → Outcome granted (record b { previously_releasing = some b.releasing }) r
      → Outcome granted b r
  saving_Outcome b mode o = ground arith

  -- With fuel for one burst, tryAcquireOne() returns. It neither loses nor makes up an acquisition:
  -- what the wrapped limiter granted is handed out or still saved. In release mode it grants without
  -- asking the wrapped limiter; otherwise it grants only at the moment when a whole burst has been
  -- saved, and after a refusal it is not in release mode. After a grant the ASSERTs of releaseOne()
  -- hold, and the limiter stays well formed.
  pub bursting_try_acquire_lem :
      (fuel : ℕ) (now : Now) (b : BurstingRateLimiter S)
      → b.burst_size ≤ fuel
      → IsValid b
      → (r : Bool × BurstingRateLimiter S) × (bursting_try_acquire fuel inner now b ≡ some r)
        × Outcome granted b r
  unfolding bursting_try_acquire
  bursting_try_acquire_lem fuel now b enough v = elim (Bool-cases b.releasing) [
    | inl mode ↦ (
      release_burst (record b { previously_releasing = some b.releasing }),
      ground arith,
      release_burst-Outcome b mode v,
    )
    | inr mode ↦
        let (r, found, outcome) =
          accumulate_lem fuel now (record b { previously_releasing = some b.releasing })
            (omega arith) mode (record { fits = v.fits; level = v.level }) in
        (r, ground arith, saving_Outcome b mode outcome)
  ]

-- releaseOne() undoes a grant: the limiter is well formed, and the next tryAcquireOne() grants the
-- acquisition again without asking the wrapped limiter, and leaves the state that the grant left.
pub bursting_release_restores :
    {S : Type 0} (fuel : ℕ) (inner : RateLimiter S) (now : Now) (b : BurstingRateLimiter S)
    → IsValid b
    → b.accumulated < b.burst_size
    → b.releasing ≡ ltb 0 b.accumulated
    → b.previously_releasing ≡ some true
    → IsValid (bursting_release b)
      × (bursting_try_acquire fuel inner now (bursting_release b) ≡ some (true, b))
unfolding bursting_release bursting_try_acquire release_burst
bursting_release_restores fuel inner now b v below mode previous = ground arith
