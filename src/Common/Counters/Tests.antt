-- ===== src/Common/Counters/Tests.antt =====
-- Concrete counters.
use nighthawk.Base.{ℕ, ◌≡◌, refl, Bool, false, ltb, List, [], ◌∷◌}
use nighthawk.Base.Chars.{Chars, codes}
use nighthawk.Base.Result.{ok}
use nighthawk.Common.Counters.{map_counters_from_store, stat_name}
use nighthawk.Common.Counters.Sums.{value_at, sum_named, map_counters_from_store_lem}

-- A text of one digit is a number.
abbrev is_digit : Chars → Bool
is_digit (c ∷ []) = ltb c 58
is_digit cs = false

abbrev is_counted : Chars → ℕ → Bool
is_counted name value = ltb 0 value

abbrev counters : List (Chars × ℕ)
counters =
    (codes "cluster.0.x.y", 2) ∷ (codes "worker.1.x.y", 3) ∷ (codes "z", 0) ∷ (codes "b", 4) ∷ []

abbrev mapped : List (Chars × ℕ)
mapped = (codes "x.y", 5) ∷ (codes "b", 4) ∷ []

counters_mapped : map_counters_from_store is_digit is_counted counters ≡ ok mapped
unfolding map_counters_from_store
counters_mapped = refl

map_counters_from_store_lem_example :
    (out : List (Chars × ℕ)) × (map_counters_from_store is_digit is_counted counters ≡ ok out)
    × ((name : Chars) → value_at name out ≡ sum_named is_digit is_counted name 0 counters)
unfolding map_counters_from_store stat_name
map_counters_from_store_lem_example =
    map_counters_from_store_lem is_digit is_counted counters
      ((_, refl), ((_, refl), ((_, refl), ((_, refl), tt))))
