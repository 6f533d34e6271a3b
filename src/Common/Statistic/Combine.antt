-- ===== src/Common/Statistic/Combine.antt =====
-- A combined statistic and the values of its parts: SimpleStatistic, source/common/statistic_impl.cc.
use nighthawk.Base.{
  ℕ, ◌<◌, ◌≤◌, min, ◌≡◌, refl, sym, ap, ◌∙◌, inc64, add64, List, [], ◌∷◌, ◌++◌, word_size, arith,
}
use nighthawk.Common.Statistic.{
  Doubles, Statistic, uint64_max, max_of, new_statistic, add_value, combine_base, SimpleStatistic,
  new_simple, simple_add_value, simple_combine,
}

-- Addition as it is on doubles as long as all sums are represented exactly.
pub record ExactSums {D : Type 0} (d : Doubles D) : Type 0 where
  pub add_assoc : (a b c : D) → d.add (d.add a b) c ≡ d.add a (d.add b c)
  pub add_zero : (a : D) → d.add a (d.of_uint 0) ≡ a

-- The counters and extremes are uint64_t values.
pub record IsStatistic (s : Statistic) : Type 0 where
  pub min_fits : s.min_value ≤ uint64_max
  pub count_fits : s.count < word_size

combine_base-add_value :
    (a b : Statistic) (value : ℕ)
    → combine_base a (add_value value b) ≡ add_value value (combine_base a b)
unfolding combine_base add_value
combine_base-add_value a b value =
    let least : min a.min_value (min b.min_value value) ≡ min (min a.min_value b.min_value) value =
      ground arith in
    let most : max_of a.max_value (max_of b.max_value value)
        ≡ max_of (max_of a.max_value b.max_value) value =
      ground arith in
    let number : add64 a.count (inc64 b.count) ≡ inc64 (add64 a.count b.count) = omega arith in
    λ i. record { id = ""; min_value = least i; max_value = most i; count = number i }

combine_base-new :
    (a : Statistic) → IsStatistic a → combine_base a new_statistic ≡ record a { id = "" }
unfolding combine_base
combine_base-new a v =
    let least : min a.min_value uint64_max ≡ a.min_value = ground arith in
    let most : max_of a.max_value 0 ≡ a.max_value = ground arith in
    let number : add64 a.count 0 ≡ a.count = ground arith in
    λ i. record { id = ""; min_value = least i; max_value = most i; count = number i }

add_value-IsStatistic :
    (value : ℕ) (s : Statistic) → IsStatistic s → IsStatistic (add_value value s)
unfolding add_value
add_value-IsStatistic value s v = ground arith

module _ {D : Type 0} (d : Doubles D) where
  -- One statistic that has seen more values.
  abbrev pub add_values : SimpleStatistic D → List ℕ → SimpleStatistic D
  add_values s [] = s
  add_values s (value ∷ values) = add_values (simple_add_value d value s) values

  module _ (exact : ExactSums d) where
    simple_combine-add_value :
        (a b : SimpleStatistic D) (value : ℕ)
        → simple_combine d a (simple_add_value d value b)
          ≡ simple_add_value d value (simple_combine d a b)
    unfolding simple_combine simple_add_value
    simple_combine-add_value a b value = λ i. record {
      base = combine_base-add_value a.base b.base value i;
      sum_x = sym (exact.add_assoc a.sum_x b.sum_x (d.of_uint value)) i;
      sum_x2 =
          sym
            (exact.add_assoc a.sum_x2 b.sum_x2
              (d.mul (d.mul (d.of_uint 1) (d.of_uint value)) (d.of_uint value)))
            i;
    }

    simple_combine-add_values :
        (a b : SimpleStatistic D) (values : List ℕ)
        → simple_combine d a (add_values b values) ≡ add_values (simple_combine d a b) values
    simple_combine-add_values a b [] = refl
    simple_combine-add_values a b (value ∷ values) =
        simple_combine-add_values a (simple_add_value d value b) values
        ∙ ap (λ s. add_values s values) (simple_combine-add_value a b value)

    simple_combine-new :
        (a : SimpleStatistic D)
        → IsStatistic a.base
        → simple_combine d a (new_simple d) ≡ record a { base = record a.base { id = "" } }
    unfolding simple_combine
    simple_combine-new a v = λ i. record {
      base = combine_base-new a.base v i;
      sum_x = exact.add_zero a.sum_x i;
      sum_x2 = exact.add_zero a.sum_x2 i;
    }

    -- A statistic combined with one that has seen some values since it was new is the statistic that
    -- sees these values in addition, but for its id, which the combination does not keep. This is so
    -- while sums are exact, and whatever the counters have wrapped to.
    pub simple_combine_lem :
        (a : SimpleStatistic D) (values : List ℕ)
        → IsStatistic a.base
        → simple_combine d a (add_values (new_simple d) values)
          ≡ add_values (record a { base = record a.base { id = "" } }) values
    simple_combine_lem a values v =
        simple_combine-add_values a (new_simple d) values
        ∙ ap (λ s. add_values s values) (simple_combine-new a v)

    pub add_values-IsStatistic :
        (a : SimpleStatistic D) (values : List ℕ)
        → IsStatistic a.base
        → IsStatistic (add_values a values).base
    unfolding simple_add_value
    add_values-IsStatistic a [] v = v
    add_values-IsStatistic a (value ∷ values) v =
        add_values-IsStatistic (simple_add_value d value a) values
          (add_value-IsStatistic value a.base v)

  pub add_values-append :
      (a : SimpleStatistic D) (values more : List ℕ)
      → add_values (add_values a values) more ≡ add_values a (values ++ more)
  add_values-append a [] more = refl
  add_values-append a (value ∷ values) more =
      add_values-append (simple_add_value d value a) values more
