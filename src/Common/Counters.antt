-- ===== src/Common/Counters.antt =====
-- Utility::mapCountersFromStore(), source/common/utility.cc. The map is an association list.
pub mod Sums
mod Tests
use nighthawk.Base.{ℕ, ◌==◌, Bool, true, false, ◌||◌, if◌then◌else◌, add64, List, [], ◌∷◌, ◌++◌}
use nighthawk.Base.Chars.{Chars, codes, eq_chars}
use nighthawk.Base.Result.{Result, ok, err, abort, ◌>>=◌}

abbrev with_first : ℕ → List Chars → List Chars
with_first c [] = (c ∷ []) ∷ []
with_first c (word ∷ words) = (c ∷ word) ∷ words

-- absl::StrSplit and absl::StrJoin, at the dots.
abbrev pub split_dots : Chars → List Chars
split_dots [] = [] ∷ []
split_dots (c ∷ cs) = let rest = split_dots cs in if c == 46 then [] ∷ rest else with_first c rest

abbrev pub join_dots : List Chars → Chars
join_dots [] = []
join_dots (word ∷ []) = word
join_dots (word ∷ next ∷ words) = word ++ (46 ∷ join_dots (next ∷ words))

unfoldable pub drop_prefix : List Chars → List Chars
drop_prefix [] = []
drop_prefix (word ∷ words) =
    if eq_chars word (codes "cluster") || eq_chars word (codes "worker")
    then words
    else word ∷ words

-- results[name] += value
unfoldable pub add_to : Chars → ℕ → List (Chars × ℕ) → List (Chars × ℕ)
add_to name value [] = (name, add64 0 value) ∷ []
add_to name value ((k, x) ∷ results) =
    let rest = add_to name value results in
    if eq_chars k name then (k, add64 x value) ∷ results else (k, x) ∷ rest

-- `is_number` tells if absl::SimpleAtoi() reads an int.
module _ (is_number : Chars → Bool) where
  -- v[0] of an empty vector is taken for the end of the process.
  unfoldable pub drop_number : List Chars → Result (List Chars)
  drop_number [] = err abort
  drop_number (word ∷ words) = ok (if is_number word then words else word ∷ words)

  unfoldable pub stat_name : Chars → Result Chars
  unfolding drop_prefix drop_number
  stat_name name = drop_number (drop_prefix (split_dots name)) >>= λ words. ok (join_dots words)

  -- `filter` is the filter of the caller.
  module _ (filter : Chars → ℕ → Bool) where
    -- One counter of the store, with the results so far.
    unfoldable pub map_counter : List (Chars × ℕ) → Chars → ℕ → Result (List (Chars × ℕ))
    unfolding stat_name add_to
    map_counter results name value =
        if filter name value
        then (stat_name name >>= λ n. ok (add_to n value results))
        else ok results

    unfoldable pub map_counters : List (Chars × ℕ) → List (Chars × ℕ) → Result (List (Chars × ℕ))
    unfolding map_counter
    map_counters results [] = ok results
    map_counters results ((name, value) ∷ counters) =
        map_counter results name value >>= λ out. map_counters out counters

    -- mapCountersFromStore()
    unfoldable pub map_counters_from_store : List (Chars × ℕ) → Result (List (Chars × ℕ))
    unfolding map_counters
    map_counters_from_store counters = map_counters [] counters
