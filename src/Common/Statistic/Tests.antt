-- ===== src/Common/Statistic/Tests.antt =====
-- Concrete statistics, over naturals for doubles, with and without a NaN.
use nighthawk.Base.{
  ℕ, ◌+◌, ◌-◌, ◌*◌, ◌/◌, ◌≡◌, refl, true, false, if◌then◌else◌, ◌==◌, List, [], ◌∷◌, Option, none,
  some, String, arith,
}
use nighthawk.Base.Result.{ok}
use nighthawk.Common.Statistic.{
  Doubles, SimpleStatistic, new_simple, simple_add_value, simple_combine, new_streaming,
  streaming_add_value, streaming_combine, streaming_pvariance, simple_statistic, set_simple_id,
  add_value,
}
use nighthawk.Common.Statistic.Combine.{ExactSums, IsStatistic, add_values, simple_combine_lem}
use nighthawk.Common.Statistic.Merge.{ClassLaws, merge_worker_statistics, ShowsMerged}
use nighthawk.Common.Statistic.Merge.Values.{merge_worker_statistics_lem}
use nighthawk.Common.Statistic.Simple.{ShowsValues, simple_statistic-ClassLaws}
use nighthawk.Common.Statistic.Empty.{NanLaws, empty_combination_is_nan}

abbrev naturals : Doubles ℕ
naturals = record {
  of_uint = λ n. n;
  add = λ a b. a + b;
  sub = λ a b. a - b;
  mul = λ a b. a * b;
  div = λ a b. a / b;
  square = λ a. a * a;
  sqrt = λ a. a;
  nan = 0;
  is_nan = λ a. false;
}

naturals_exact : ExactSums naturals
naturals_exact = record { add_assoc = λ a b c. omega arith; add_zero = λ a. omega arith }

abbrev seen : SimpleStatistic ℕ
seen = set_simple_id naturals "latency" (add_values naturals (new_simple naturals) (7 ∷ 3 ∷ []))

seen_IsStatistic : IsStatistic seen.base
unfolding simple_add_value add_value
seen_IsStatistic = record { min_fits = omega arith; count_fits = omega arith }

simple_combine_lem_example :
    simple_combine naturals seen (add_values naturals (new_simple naturals) (5 ∷ 9 ∷ []))
    ≡ add_values naturals (set_simple_id naturals "" seen) (5 ∷ 9 ∷ [])
simple_combine_lem_example =
    simple_combine_lem naturals naturals_exact seen (5 ∷ 9 ∷ []) seen_IsStatistic

simple_statistic-ClassLaws_example : ClassLaws (simple_statistic naturals) (ShowsValues naturals)
simple_statistic-ClassLaws_example = simple_statistic-ClassLaws naturals naturals_exact

abbrev first_worker : List (String × SimpleStatistic ℕ)
first_worker = ("latency", seen) ∷ []

abbrev second_worker : List (String × SimpleStatistic ℕ)
second_worker = ("latency", add_values naturals (new_simple naturals) (11 ∷ [])) ∷ []

merge_worker_statistics_lem_example :
    (merged : List (SimpleStatistic ℕ)) × (merge_worker_statistics
        (simple_statistic naturals)
        (first_worker ∷ second_worker ∷ [])
      ≡ ok merged)
    × ShowsMerged
        (ShowsValues naturals)
        (simple_statistic naturals)
        ("latency" ∷ [])
        ((7 ∷ 3 ∷ 11 ∷ []) ∷ [])
        merged
unfolding simple_add_value add_value
merge_worker_statistics_lem_example =
    merge_worker_statistics_lem (simple_statistic naturals) (ShowsValues naturals)
      (simple_statistic-ClassLaws naturals naturals_exact) ("latency" ∷ []) ((7 ∷ 3 ∷ []) ∷ [])
      (((11 ∷ []) ∷ []) ∷ []) first_worker (second_worker ∷ [])
      ((refl, refl, tt), ((refl, refl, tt), tt))

abbrev lift : (ℕ → ℕ → ℕ) → Option ℕ → Option ℕ → Option ℕ
lift f none b = none
lift f (some a) none = none
lift f (some a) (some b) = some (f a b)

abbrev quotient : Option ℕ → Option ℕ → Option ℕ
quotient none b = none
quotient (some a) none = none
quotient (some a) (some b) = if b == 0 then none else some (a / b)

abbrev with_nan : Doubles (Option ℕ)
with_nan = record {
  of_uint = λ n. some n;
  add = lift (λ a b. a + b);
  sub = lift (λ a b. a - b);
  mul = lift (λ a b. a * b);
  div = quotient;
  square = λ a. lift (λ x y. x * y) a a;
  sqrt = λ a. a;
  nan = none;
  is_nan = λ a. elim a [ none ↦ true | some n ↦ false ];
}

sum_of_nan : (x y : Option ℕ) → with_nan.is_nan y ≡ true → with_nan.is_nan (with_nan.add x y) ≡ true
sum_of_nan none y h = refl
sum_of_nan (some a) none h = refl
sum_of_nan (some a) (some b) h = h

nan_in_sum : (x y : Option ℕ) → with_nan.is_nan x ≡ true → with_nan.is_nan (with_nan.add x y) ≡ true
nan_in_sum none y h = refl
nan_in_sum (some a) y h = ground (arith, h)

nan_in_quotient :
    (x y : Option ℕ) → with_nan.is_nan x ≡ true → with_nan.is_nan (with_nan.div x y) ≡ true
nan_in_quotient none y h = refl
nan_in_quotient (some a) y h = ground (arith, h)

zero_quotient :
    (x : Option ℕ)
    → with_nan.is_nan (with_nan.div (with_nan.mul x (with_nan.of_uint 0)) (with_nan.of_uint 0))
      ≡ true
zero_quotient none = refl
zero_quotient (some a) = refl

with_nan_laws : NanLaws with_nan
with_nan_laws = record {
  nan_lem = refl;
  zero_by_zero = zero_quotient;
  add-nan = sum_of_nan;
  nan-add = nan_in_sum;
  nan-div = nan_in_quotient;
}

empty_combination_is_nan_example :
    with_nan.is_nan (
      streaming_pvariance with_nan (
        streaming_combine with_nan
          (streaming_combine with_nan (new_streaming with_nan) (new_streaming with_nan))
          (streaming_add_value with_nan 4 (new_streaming with_nan))))
    ≡ true
empty_combination_is_nan_example =
    empty_combination_is_nan with_nan with_nan_laws
      (streaming_add_value with_nan 4 (new_streaming with_nan))
