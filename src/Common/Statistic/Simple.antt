-- ===== src/Common/Statistic/Simple.antt =====
-- The merge of simple statistics: source/common/statistic_impl.cc, SimpleStatistic.
use nighthawk.Base.{ℕ, ◌≡◌, refl, sym, ap, ap₂, ◌∙◌, List, [], ◌∷◌, ◌++◌, arith}
use nighthawk.Common.Statistic.{
  Doubles, add_value, SimpleStatistic, new_simple, simple_add_value, simple_combine, combine_base,
  set_simple_id, simple_statistic,
}
use nighthawk.Common.Statistic.Merge.{ClassLaws}
use nighthawk.Common.Statistic.Combine.{
  ExactSums, IsStatistic, add_values, simple_combine_lem, add_values-IsStatistic, add_values-append,
}

module _ {D : Type 0} (d : Doubles D) where
  -- But for its id, the statistic is one that has seen the values since it was new.
  abbrev pub ShowsValues : List ℕ → SimpleStatistic D → Type 0
  ShowsValues values s = s ≡ set_simple_id d s.base.id (add_values d (new_simple d) values)

  id-add_values :
      (s : SimpleStatistic D) (values : List ℕ) → (add_values d s values).base.id ≡ s.base.id
  unfolding simple_add_value add_value
  id-add_values s [] = refl
  id-add_values s (value ∷ values) = id-add_values (simple_add_value d value s) values

  new_IsStatistic : IsStatistic (new_simple d).base
  new_IsStatistic = record { min_fits = omega arith; count_fits = omega arith }

  no_id : (s : SimpleStatistic D) → s.base.id ≡ "" → set_simple_id d "" s ≡ s
  no_id s h = λ i. set_simple_id d (sym h i) s

  module _ (exact : ExactSums d) where
    combine_lem :
        (values more : List ℕ)
        → simple_combine d (add_values d (new_simple d) values) (add_values d (new_simple d) more)
          ≡ add_values d (new_simple d) (values ++ more)
    combine_lem values more =
        let a = add_values d (new_simple d) values in
        simple_combine_lem d exact a more
          (add_values-IsStatistic d exact (new_simple d) values new_IsStatistic)
        ∙ ap (λ s. add_values d s more) (no_id a (id-add_values (new_simple d) values))
        ∙ add_values-append d (new_simple d) values more

    combine_shows :
        (values more : List ℕ) (a b : SimpleStatistic D)
        → ShowsValues values a
        → ShowsValues more b
        → ShowsValues (values ++ more) (simple_combine d a b)
    unfolding simple_combine combine_base
    combine_shows values more a b ha hb =
        ap₂ (simple_combine d) ha hb
        ∙ combine_lem values more
        ∙ sym (no_id _ (id-add_values (new_simple d) (values ++ more)))

    -- Simple statistics keep the laws of the merge, while sums are exact: what the merge of the workers
    -- gives is the statistic that would have seen the values of all workers by itself.
    pub simple_statistic-ClassLaws : ClassLaws (simple_statistic d) ShowsValues
    unfolding simple_statistic
    simple_statistic-ClassLaws = record {
      new_shows = λ s. refl;
      combine_shows = combine_shows;
      set_id_shows = λ name values s h. ap (set_simple_id d name) h;
      id-set_id = λ name s. refl;
    }
