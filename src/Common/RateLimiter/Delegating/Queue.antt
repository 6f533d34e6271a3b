-- ===== src/Common/RateLimiter/Delegating/Queue.antt =====
-- The queue of held-back acquisitions of DelegatingRateLimiterImpl, rate_limiter_impl.cc.
use mathlib.Core.List.Perm
use mathlib.Core.List.{Perm}
use nighthawk.Base.{
  ℕ, ◌+◌, ◌≡◌, ◌≤◌, ◌<◌, refl, Bool, true, false, ltb, leb, if◌then◌else◌, List, [], ◌∷◌, ◌++◌, All,
  arith, Bool-cases, inl, inr, leb→le, ◌⊎◌,
}
use nighthawk.Common.RateLimiter.{Now, RateLimiter}
use nighthawk.Common.RateLimiter.Delegating.{
  DelegatingRateLimiter, insert_timing, draw_timing, release_front, delegating_try_acquire,
}

-- Earliest timing first.
abbrev pub IsSorted : List ℕ → Type 0
IsSorted [] = Unit {0}
IsSorted (x ∷ xs) = All (λ y. x ≤ y) xs × IsSorted xs

All-le : {a b : ℕ} (xs : List ℕ) → a ≤ b → All (λ y. b ≤ y) xs → All (λ y. a ≤ y) xs
All-le [] h p = tt
All-le (x ∷ xs) h p = (omega arith, All-le xs h p.1)

insert_timing-All :
    (a x : ℕ) (xs : List ℕ) → a ≤ x → All (λ y. a ≤ y) xs → All (λ y. a ≤ y) (insert_timing x xs)
unfolding insert_timing
insert_timing-All a x [] h p = (h, tt)
insert_timing-All a x (y ∷ xs) h p = ground (arith, insert_timing-All a x xs h p.1)

insert_timing-IsSorted : (x : ℕ) (xs : List ℕ) → IsSorted xs → IsSorted (insert_timing x xs)
unfolding insert_timing
insert_timing-IsSorted x [] s = (tt, tt)
insert_timing-IsSorted x (y ∷ xs) s =
    ground
      (arith, insert_timing-IsSorted x xs s.1, insert_timing-All y x xs, All-le {a = x} {b = y} xs)

insert_timing-perm : (x : ℕ) (xs : List ℕ) → Perm (insert_timing x xs) (x ∷ xs)
unfolding insert_timing
insert_timing-perm x [] = Perm.refl _
insert_timing-perm x (y ∷ xs) = elim (Bool-cases (ltb x y)) [
  | inl before ↦ rw before (Perm.refl _)
  | inr after ↦ rw after (Perm.trans (Perm.cons y (insert_timing-perm x xs)) (Perm.swap x y xs))
]

not-leb : (a b : ℕ) → leb a b ≡ false → b < a
not-leb a b h = ground arith

All-later : (t x : ℕ) (xs : List ℕ) → t < x → All (λ y. x ≤ y) xs → All (λ y. t < y) xs
All-later t x [] h p = tt
All-later t x (y ∷ xs) h p = (omega arith, All-later t x xs h p.1)

module _ {S G : Type 0} (inner : RateLimiter S) (random_distribution : G → ℕ × G) where
  -- The timing that a call adds, if the wrapped limiter grants an acquisition.
  abbrev pub drawn : Now → DelegatingRateLimiter S G → List ℕ
  drawn now l =
      if (inner.try_acquire_one now l.rate_limiter).0
      then (now.monotonic_time + (random_distribution l.generator).0) ∷ []
      else []

  -- What a call leaves of the timings `before` it: on a refusal all of them, each one in the future;
  -- on a grant all but the earliest, which is not in the future.
  abbrev pub Serves : Now → List ℕ → Bool × DelegatingRateLimiter S G → Type 0
  Serves now before r =
      ((r.0 ≡ false)
        × All (λ y. now.monotonic_time < y) r.1.distributed_timings
        × Perm r.1.distributed_timings before)
      ⊎ ((front : ℕ) × (r.0 ≡ true)
          × (front ≤ now.monotonic_time)
          × All (λ y. front ≤ y) r.1.distributed_timings
          × Perm (front ∷ r.1.distributed_timings) before)

  Serves-perm :
      (now : Now) {xs ys : List ℕ}
      → Perm xs ys
      → (r : Bool × DelegatingRateLimiter S G) → Serves now xs r
      → Serves now ys r
  Serves-perm now p r (inl (refused, later, same)) = inl (refused, later, Perm.trans same p)
  Serves-perm now p r (inr (front, granted, due, least, rest)) =
      inr (front, granted, due, least, Perm.trans rest p)

  release_front_lem :
      (now : Now) (l : DelegatingRateLimiter S G) (timings : List ℕ)
      → l.distributed_timings ≡ timings
      → IsSorted timings
      → Serves now timings (release_front inner random_distribution now l)
        × IsSorted (release_front inner random_distribution now l).1.distributed_timings
  unfolding release_front
  release_front_lem now l [] e s =
      rw (e, release_front) (inl (refl, rw e tt, rw e (Perm.refl [])), rw e tt)
  release_front_lem now l (x ∷ xs) e s = elim (Bool-cases (leb x now.monotonic_time)) [
    | inl due ↦
        rw (e, release_front)
          (rw due (inr (x, refl, leb→le x now.monotonic_time due, s.0, Perm.refl (x ∷ xs)), s.1))
    | inr later ↦
        rw (e, release_front)
          (rw later (
            rw e (
              inl (
                refl,
                All-later now.monotonic_time x (x ∷ xs)
                    (omega (arith, not-leb x now.monotonic_time later)) (omega arith, s.0),
                Perm.refl (x ∷ xs),
              ),
              s,
            )))
  ]

  draw_timing_lem :
      (now : Now) (l : DelegatingRateLimiter S G)
      → IsSorted l.distributed_timings
      → IsSorted (draw_timing inner random_distribution now l).distributed_timings
        × Perm
            (draw_timing inner random_distribution now l).distributed_timings
            (drawn now l ++ l.distributed_timings)
  unfolding draw_timing
  draw_timing_lem now l s =
      let due = now.monotonic_time + (random_distribution l.generator).0 in
      elim (Bool-cases (inner.try_acquire_one now l.rate_limiter).0) [
        | inl yes' ↦
            rw (yes', draw_timing)
              (
                insert_timing-IsSorted due l.distributed_timings s,
                insert_timing-perm due l.distributed_timings,
              )
        | inr no' ↦ rw (no', draw_timing) (s, Perm.refl l.distributed_timings)
      ]

  -- The held-back timings stay sorted. Each call adds the timing of an acquisition that the wrapped
  -- limiter grants, and grants exactly when a timing is not in the future: it then uses up the
  -- earliest one and keeps all others.
  pub delegating_try_acquire_lem :
      (now : Now) (l : DelegatingRateLimiter S G)
      → IsSorted l.distributed_timings
      → IsSorted (delegating_try_acquire inner random_distribution now l).1.distributed_timings
        × Serves now
            (drawn now l ++ l.distributed_timings)
            (delegating_try_acquire inner random_distribution now l)
  unfolding delegating_try_acquire
  delegating_try_acquire_lem now l s =
      let d = draw_timing inner random_distribution now l in
      let (sorted, held) = draw_timing_lem now l s in
      let (served, rest) = release_front_lem now d d.distributed_timings refl sorted in
      (rest, Serves-perm now held (release_front inner random_distribution now d) served)
