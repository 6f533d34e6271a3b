-- ===== src/Common/Statistic.antt =====
-- Statistics: source/common/statistic_impl.{h,cc}, the classes that compute them by themselves. The
-- histograms of HdrHistogram and circllhist are left out.
pub mod Combine
pub mod Merge
pub mod Empty
pub mod Simple
mod Tests
use nighthawk.Base.{
  ℕ, ◌+◌, ◌/◌, ◌%◌, min, Bool, true, false, if◌then◌else◌, leb, ◌==◌, inc64, add64, List, [], ◌∷◌,
  ◌++◌, length, String, word_size, Option, none, some,
}
use nighthawk.Common.Statistic.Merge.{StatisticClass}

-- What the code uses of double, for any representation of its values; `square` is pow(x, 2).
pub record Doubles (D : Type 0) : Type 0 where
  pub of_uint : ℕ → D
  pub add : D → D → D
  pub sub : D → D → D
  pub mul : D → D → D
  pub div : D → D → D
  pub square : D → D
  pub sqrt : D → D
  pub nan : D
  pub is_nan : D → Bool

-- StatisticImpl
pub record Statistic : Type 0 where
  pub id : String
  pub min_value : ℕ
  pub max_value : ℕ
  pub count : ℕ

abbrev pub uint64_max : ℕ
uint64_max = 18446744073709551615

-- std::max
abbrev pub max_of : ℕ → ℕ → ℕ
max_of a b = if leb b a then a else b

abbrev pub new_statistic : Statistic
new_statistic = record { id = ""; min_value = uint64_max; max_value = 0; count = 0 }

unfoldable pub add_value : ℕ → Statistic → Statistic
add_value value s = record s {
  min_value = min s.min_value value;
  max_value = max_of s.max_value value;
  count = inc64 s.count;
}

-- The first assignments of the combine() methods, into a new statistic.
unfoldable pub combine_base : Statistic → Statistic → Statistic
combine_base a b = record {
  id = "";
  min_value = min a.min_value b.min_value;
  max_value = max_of a.max_value b.max_value;
  count = add64 a.count b.count;
}

-- SimpleStatistic
pub record SimpleStatistic (D : Type 0) : Type 0 where
  pub base : Statistic
  pub sum_x : D
  pub sum_x2 : D

-- StreamingStatistic; `mean_` is the member, mean() the method below.
pub record StreamingStatistic (D : Type 0) : Type 0 where
  pub base : Statistic
  pub mean_ : D
  pub accumulated_variance : D

-- InMemoryStatistic
pub record InMemoryStatistic (D : Type 0) : Type 0 where
  pub base : Statistic
  pub samples : List ℕ
  pub streaming_stats : StreamingStatistic D

module _ {D : Type 0} (d : Doubles D) where
  abbrev pub new_simple : SimpleStatistic D
  new_simple = record { base = new_statistic; sum_x = d.of_uint 0; sum_x2 = d.of_uint 0 }

  unfoldable pub simple_add_value : ℕ → SimpleStatistic D → SimpleStatistic D
  unfolding add_value
  simple_add_value value s = record {
    base = add_value value s.base;
    sum_x = d.add s.sum_x (d.of_uint value);
    sum_x2 = d.add s.sum_x2 (d.mul (d.mul (d.of_uint 1) (d.of_uint value)) (d.of_uint value));
  }

  unfoldable pub simple_mean : SimpleStatistic D → D
  simple_mean s = if s.base.count == 0 then d.nan else d.div s.sum_x (d.of_uint s.base.count)

  unfoldable pub simple_pvariance : SimpleStatistic D → D
  unfolding simple_mean
  simple_pvariance s =
      if s.base.count == 0
      then d.nan
      else d.sub (d.div s.sum_x2 (d.of_uint s.base.count)) (d.mul (simple_mean s) (simple_mean s))

  unfoldable pub simple_combine : SimpleStatistic D → SimpleStatistic D → SimpleStatistic D
  unfolding combine_base
  simple_combine a b = record {
    base = combine_base a.base b.base;
    sum_x = d.add a.sum_x b.sum_x;
    sum_x2 = d.add a.sum_x2 b.sum_x2;
  }

  -- The methods that the merge of the workers calls; setId() is StatisticImpl's.
  abbrev pub set_simple_id : String → SimpleStatistic D → SimpleStatistic D
  set_simple_id id s = record s { base = record s.base { id = id } }

  unfoldable pub simple_statistic : StatisticClass (SimpleStatistic D)
  unfolding simple_combine
  simple_statistic = record {
    create_new_instance_of_same_type = λ s. new_simple;
    combine = simple_combine;
    set_id = set_simple_id;
    id = λ s. s.base.id;
  }

  abbrev pub new_streaming : StreamingStatistic D
  new_streaming = record {
    base = new_statistic;
    mean_ = d.of_uint 0;
    accumulated_variance = d.of_uint 0;
  }

  unfoldable pub streaming_add_value : ℕ → StreamingStatistic D → StreamingStatistic D
  unfolding add_value
  streaming_add_value value s =
      let base = add_value value s.base in
      let delta = d.sub (d.of_uint value) s.mean_ in
      let delta_n = d.div delta (d.of_uint base.count) in
      record {
        base = base;
        mean_ = d.add s.mean_ delta_n;
        accumulated_variance =
            d.add s.accumulated_variance
              (d.mul (d.mul delta delta_n) (d.sub (d.of_uint base.count) (d.of_uint 1)));
      }

  unfoldable pub streaming_mean : StreamingStatistic D → D
  streaming_mean s = if s.base.count == 0 then d.nan else s.mean_

  unfoldable pub streaming_pvariance : StreamingStatistic D → D
  streaming_pvariance s =
      if s.base.count == 0 then d.nan else d.div s.accumulated_variance (d.of_uint s.base.count)

  -- std::isnan(mean()) ? 0 : mean()
  unfoldable pub mean_or_zero : StreamingStatistic D → D
  unfolding streaming_mean
  mean_or_zero s = if d.is_nan (streaming_mean s) then d.of_uint 0 else streaming_mean s

  unfoldable pub streaming_combine :
      StreamingStatistic D → StreamingStatistic D → StreamingStatistic D
  unfolding combine_base mean_or_zero
  streaming_combine a b =
      let base = combine_base a.base b.base in
      let a_count = d.of_uint a.base.count in
      let b_count = d.of_uint b.base.count in
      let a_mean = mean_or_zero a in
      let b_mean = mean_or_zero b in
      record {
        base = base;
        mean_ = d.div (d.add (d.mul a_count a_mean) (d.mul b_count b_mean)) (d.of_uint base.count);
        accumulated_variance = d.add (d.add a.accumulated_variance b.accumulated_variance) (
            d.div (d.mul (d.mul (d.square (d.sub a_mean b_mean)) a_count) b_count)
              (d.of_uint base.count));
      }

  abbrev pub new_in_memory : InMemoryStatistic D
  new_in_memory = record { base = new_statistic; samples = []; streaming_stats = new_streaming }

  unfoldable pub in_memory_add_value : ℕ → InMemoryStatistic D → InMemoryStatistic D
  unfolding add_value streaming_add_value
  in_memory_add_value value s = record {
    base = add_value value s.base;
    samples = s.samples ++ (value ∷ []);
    streaming_stats = streaming_add_value value s.streaming_stats;
  }

  -- The count is the number of the samples, a size_t.
  unfoldable pub in_memory_combine : InMemoryStatistic D → InMemoryStatistic D → InMemoryStatistic D
  unfolding combine_base streaming_combine
  in_memory_combine a b = record {
    base = record (combine_base a.base b.base) {
      count = length (a.samples ++ b.samples) % word_size;
    };
    samples = a.samples ++ b.samples;
    streaming_stats = streaming_combine a.streaming_stats b.streaming_stats;
  }
