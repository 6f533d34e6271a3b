-- ===== src/Common/Statistic/Empty.antt =====
-- Streaming statistics without any value: StreamingStatistic, source/common/statistic_impl.cc.
use nighthawk.Base.{◌≡◌, true, ◌==◌, Bool-cases, inl, inr}
use nighthawk.Common.Statistic.{
  Doubles, StreamingStatistic, new_streaming, streaming_combine, streaming_pvariance, combine_base,
}

-- NaN as doubles have it: zero times anything, divided by zero, and every sum or quotient of a NaN.
pub record NanLaws {D : Type 0} (d : Doubles D) : Type 0 where
  pub nan_lem : d.is_nan d.nan ≡ true
  pub zero_by_zero : (x : D) → d.is_nan (d.div (d.mul x (d.of_uint 0)) (d.of_uint 0)) ≡ true
  pub add-nan : (x y : D) → d.is_nan y ≡ true → d.is_nan (d.add x y) ≡ true
  pub nan-add : (x y : D) → d.is_nan x ≡ true → d.is_nan (d.add x y) ≡ true
  pub nan-div : (x y : D) → d.is_nan x ≡ true → d.is_nan (d.div x y) ≡ true

module _ {D : Type 0} (d : Doubles D) (laws : NanLaws d) where
  two_empty :
      d.is_nan (streaming_combine d (new_streaming d) (new_streaming d)).accumulated_variance ≡ true
  unfolding streaming_combine combine_base
  two_empty = laws.add-nan _ _ (laws.zero_by_zero _)

  combine_nan :
      (a b : StreamingStatistic D)
      → d.is_nan a.accumulated_variance ≡ true
      → d.is_nan (streaming_combine d a b).accumulated_variance ≡ true
  unfolding streaming_combine
  combine_nan a b h = laws.nan-add _ _ (laws.nan-add _ _ h)

  nan_variance :
      (s : StreamingStatistic D)
      → d.is_nan s.accumulated_variance ≡ true
      → d.is_nan (streaming_pvariance d s) ≡ true
  unfolding streaming_pvariance
  nan_variance s h = elim (Bool-cases (s.base.count == 0)) [
    | inl none_seen ↦ rw none_seen laws.nan_lem
    | inr seen ↦ rw seen (laws.nan-div _ _ h)
  ]

  -- After two statistics without any value are combined, the variance of every combination with the
  -- result is NaN, whatever values the third one has seen.
  pub empty_combination_is_nan :
      (s : StreamingStatistic D)
      → d.is_nan (
          streaming_pvariance d
            (streaming_combine d (streaming_combine d (new_streaming d) (new_streaming d)) s))
        ≡ true
  empty_combination_is_nan s = nan_variance _ (combine_nan _ s two_empty)
