-- ===== src/Client/Process/Results/Earliest.antt =====
-- The first acquisition of all workers: source/client/process_impl.cc.
use nighthawk.Base.{
  ℕ, ◌≡◌, refl, ◌≤◌, ◌⊎◌, inl, inr, List, [], ◌∷◌, Option, none, some, min, arith, leb, Bool-cases,
  leb→le,
}
use nighthawk.Client.Process.Results.{earlier}

abbrev pub AllNone : List (Option ℕ) → Type 0
AllNone [] = Unit
AllNone (none ∷ times) = AllNone times
AllNone (some time ∷ times) = ⊥

abbrev pub Has : ℕ → List (Option ℕ) → Type 0
Has t [] = ⊥
Has t (none ∷ times) = Has t times
Has t (some time ∷ times) = (time ≡ t) ⊎ Has t times

abbrev pub IsLowerBound : ℕ → List (Option ℕ) → Type 0
IsLowerBound t [] = Unit
IsLowerBound t (none ∷ times) = IsLowerBound t times
IsLowerBound t (some time ∷ times) = (t ≤ time) × IsLowerBound t times

-- The least of the times that are there, none if there are none.
abbrev pub IsEarliest : Option ℕ → List (Option ℕ) → Type 0
IsEarliest none times = AllNone times
IsEarliest (some t) times = Has t times × IsLowerBound t times

min-choice : (f w : ℕ) → (min f w ≡ f) ⊎ (min f w ≡ w)
min-choice f w = elim (Bool-cases (leb f w)) [
  | inl h ↦ inl (omega (arith, leb→le f w h))
  | inr h ↦ inr (ground (arith, h))
]

Has-either :
    (t f w : ℕ) (times : List (Option ℕ))
    → Has t (some (min f w) ∷ times)
    → Has t (some f ∷ some w ∷ times)
Has-either t f w times (inl h) = elim (min-choice f w) [
  | inl first ↦ inl (omega (arith, h, first))
  | inr second ↦ inr (inl (omega (arith, h, second)))
]
Has-either t f w times (inr later) = inr (inr later)

-- Two times may be replaced by the earlier one.
pub IsEarliest-earlier :
    (t first worker : Option ℕ) (times : List (Option ℕ))
    → IsEarliest t (earlier first worker ∷ times)
    → IsEarliest t (first ∷ worker ∷ times)
unfolding earlier
IsEarliest-earlier none none none times h = h
IsEarliest-earlier none none (some w) times h = h
IsEarliest-earlier none (some f) none times h = h
IsEarliest-earlier none (some f) (some w) times h = h
IsEarliest-earlier (some t) none none times h = h
IsEarliest-earlier (some t) none (some w) times h = h
IsEarliest-earlier (some t) (some f) none times h = h
IsEarliest-earlier (some t) (some f) (some w) times (has, (below, rest)) =
    (Has-either t f w times has, (omega (arith, below), (omega (arith, below), rest)))

pub IsEarliest-first : (t : Option ℕ) → IsEarliest t (t ∷ [])
IsEarliest-first none = tt
IsEarliest-first (some t) = (inl refl, (omega arith, tt))

pub IsEarliest-none :
    (t : Option ℕ) (times : List (Option ℕ)) → IsEarliest t (none ∷ times) → IsEarliest t times
IsEarliest-none none times h = h
IsEarliest-none (some t) times h = h
