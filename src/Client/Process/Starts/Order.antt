-- ===== src/Client/Process/Starts/Order.antt =====
-- The order of the starts of the workers: source/client/process_impl.cc.
use native.Mathlib.Nat.{div-mul-le_self, mul-lt-mul_of_pos_left, zero-mul}
use nighthawk.Base.{
  ℕ, zero, suc, ◌+◌, ◌*◌, ◌≤◌, ◌<◌, ◌≡◌, refl, sym, ap, subst, List, [], ◌∷◌, length, Option, arith,
}
use nighthawk.Base.Status
use nighthawk.Base.Status.{StatusOr, ok-injective}
use nighthawk.Common.RateLimiter.{Now}
use nighthawk.Client.Process.Starts.{
  add_worker, create_from, create_workers, compute_first_worker_start, compute_inter_worker_delay,
}

-- The delays of all workers but the first lie within one interval of the request rate.
within_interval :
    (c rps k delay : ℕ)
    → 0 < rps
    → k < c
    → delay * (rps * c) ≤ 1000000000
    → delay * (rps * k) < 1000000000
within_interval c rps k zero positive below fits =
    subst (λ x. x < 1000000000) (sym (zero-mul (rps * k))) (omega arith)
within_interval c rps k (suc delay) positive below fits = omega (
  arith,
  mul-lt-mul_of_pos_left {m = rps * k} {n = rps * c} {k = suc delay}
      (mul-lt-mul_of_pos_left {m = k} {n = c} {k = rps} below positive) (omega arith),
  fits,
)

module _ {P W : Type 0} (create_plugins : ℕ → StatusOr P) (create_worker : ℕ → ℕ → P → W) where
  -- The workers are numbered on from the given number, each one has its own plugins, and starts as
  -- many delays after the first start as its number says, and within one interval of the rate.
  abbrev pub StartInOrder : ℕ → ℕ → ℕ → ℕ → List W → Type 0
  StartInOrder number first delay rps [] = Unit
  StartInOrder number first delay rps (w ∷ workers) =
      ((plugins : P) × (create_plugins number ≡ Status.ok plugins)
        × (w ≡ create_worker number (first + delay * number) plugins)
        × (delay * (rps * number) < 1000000000))
      × StartInOrder (number + 1) first delay rps workers

  added :
      (number first delay rps left : ℕ) (made : StatusOr P) (rest : StatusOr (List W))
      (workers : List W)
      → create_plugins number ≡ made
      → delay * (rps * number) < 1000000000
      → ((others : List W)
          → rest ≡ Status.ok others
          → (length others ≡ left) × StartInOrder (number + 1) first delay rps others)
      → add_worker create_plugins create_worker number (first + delay * number) made rest
        ≡ Status.ok workers
      → (length workers ≡ suc left) × StartInOrder number first delay rps workers
  unfolding add_worker
  added number first delay rps left (Status.error e) rest workers plugins fits ih h =
      ground (arith, h)
  added number first delay rps left (Status.ok p) (Status.error e) workers plugins fits ih h =
      ground (arith, h)
  added number first delay rps left (Status.ok p) (Status.ok others) workers plugins fits ih h =
      let (count, ordered) = ih others refl in
      subst (λ ws. (length ws ≡ suc left) × StartInOrder number first delay rps ws)
        (ok-injective _ workers h) (ap suc count, ((p, plugins, refl, fits), ordered))

  create_from_lem :
      (left number first delay rps concurrency : ℕ) (workers : List W)
      → 0 < rps
      → delay * (rps * concurrency) ≤ 1000000000
      → left + number ≤ concurrency
      → create_from create_plugins create_worker left number first delay ≡ Status.ok workers
      → (length workers ≡ left) × StartInOrder number first delay rps workers
  unfolding create_from
  create_from_lem zero number first delay rps concurrency workers positive fits below h =
      subst (λ ws. (length ws ≡ 0) × StartInOrder number first delay rps ws)
        (ok-injective [] workers h) (refl, tt)
  create_from_lem (suc left) number first delay rps concurrency workers positive fits below h =
      added number first delay rps left (create_plugins number)
        (create_from create_plugins create_worker left (number + 1) first delay) workers refl
        (within_interval concurrency rps number delay positive (omega (arith, below)) fits)
        (λ others made.
          create_from_lem left (number + 1) first delay rps concurrency others positive fits
            (omega (arith, below)) made)
        h

  -- Workers that are created are as many as asked for, numbered from zero. They start in order, evenly
  -- apart, the first one at the computed start and all of them within one interval of the request
  -- rate of a worker after it. The rate is not zero.
  pub create_workers_lem :
      (now : Now) (scheduled_start : Option ℕ) (concurrency rps : ℕ) (workers : List W)
      → 0 < rps
      → create_workers create_plugins create_worker now scheduled_start concurrency rps
        ≡ Status.ok workers
      → (length workers ≡ concurrency)
        × StartInOrder 0
            (compute_first_worker_start now scheduled_start concurrency)
            (compute_inter_worker_delay concurrency rps)
            rps
            workers
  unfolding create_workers compute_inter_worker_delay
  create_workers_lem now scheduled_start concurrency rps workers positive h =
      create_from_lem concurrency 0 _ _ rps concurrency workers positive
        (div-mul-le_self 1000000000 (rps * concurrency)) (omega arith) h
