-- ===== src/Common/Counters/Sums.antt =====
-- The values under the names of counters: source/common/utility.cc.
use nighthawk.Base.{
  ℕ, ◌≡◌, refl, sym, ap, ◌∙◌, subst, Bool, true, false, ◌&&◌, if◌then◌else◌, add64, Bool-cases, inl,
  inr, List, [], ◌∷◌, All, arith,
}
use nighthawk.Base.Chars.{Chars, eq_chars, eq_chars→≡}
use nighthawk.Base.Result.{Result, ok, err}
use nighthawk.Common.Counters.{
  add_to, stat_name, map_counter, map_counters, map_counters_from_store,
}

-- The value under a name, 0 if there is none.
abbrev pub value_at : Chars → List (Chars × ℕ) → ℕ
value_at name [] = 0
value_at name ((k, x) ∷ results) =
    let rest = value_at name results in if eq_chars k name then x else rest

other_name :
    (k n name : Chars) → eq_chars k n ≡ false → eq_chars k name ≡ true → eq_chars n name ≡ false
other_name k n name elsewhere wanted = elim (Bool-cases (eq_chars n name)) [
  | inl same ↦
      ground
        (arith, elsewhere, subst (λ m. eq_chars k m ≡ true) (sym (eq_chars→≡ n name same)) wanted)
  | inr other ↦ other
]

value_at-add_to :
    (name n : Chars) (value : ℕ) (results : List (Chars × ℕ))
    → value_at name (add_to n value results)
      ≡ (if eq_chars n name then add64 (value_at name results) value else value_at name results)
unfolding add_to
value_at-add_to name n value [] = refl
value_at-add_to name n value ((k, x) ∷ results) = elim (Bool-cases (eq_chars k n)) [
  | inl here ↦
      rw (here, ap (λ m. eq_chars m name) (sym (eq_chars→≡ k n here)))
        (elim (Bool-cases (eq_chars k name)) [
          | inl wanted ↦ rw wanted refl
          | inr other ↦ rw other refl
        ])
  | inr elsewhere ↦ rw elsewhere (elim (Bool-cases (eq_chars k name)) [
    | inl wanted ↦ rw (wanted, other_name k n name elsewhere wanted) refl
    | inr other ↦ rw other (value_at-add_to name n value results)
  ])
]

module _ (is_number : Chars → Bool) (filter : Chars → ℕ → Bool) where
  abbrev is_named : Chars → Result Chars → Bool
  is_named name (ok n) = eq_chars n name
  is_named name (err e) = false

  -- The sum, on 64 bits, of the values of the counters that pass the filter and have the name without
  -- their prefix.
  abbrev pub sum_named : Chars → ℕ → List (Chars × ℕ) → ℕ
  sum_named name sum [] = sum
  sum_named name sum ((n, value) ∷ counters) =
      sum_named name
        (if filter n value && is_named name (stat_name is_number n) then add64 sum value else sum)
        counters

  -- More than a prefix stands in each name.
  abbrev pub AllNamed : List (Chars × ℕ) → Type 0
  AllNamed counters = All (λ counter. (n : Chars) × (stat_name is_number counter.0 ≡ ok n)) counters

  map_counters_lem :
      (results counters : List (Chars × ℕ))
      → AllNamed counters
      → (out : List (Chars × ℕ)) × (map_counters is_number filter results counters ≡ ok out)
        × ((name : Chars) → value_at name out ≡ sum_named name (value_at name results) counters)
  unfolding map_counters map_counter
  map_counters_lem results [] named = (results, refl, λ name. refl)
  map_counters_lem results ((n, value) ∷ counters) ((m, found), named) =
      elim (Bool-cases (filter n value)) [
        | inl passes ↦
            let (out, mapped, sums) = map_counters_lem (add_to m value results) counters named in
            (
              out,
              rw (passes, found) mapped,
              λ name.
                  rw (passes, found)
                    (sums name
                      ∙ ap (λ s. sum_named name s counters) (value_at-add_to name m value results)),
            )
        | inr fails ↦
            let (out, mapped, sums) = map_counters_lem results counters named in
            (out, rw fails mapped, λ name. rw fails (sums name))
      ]

  -- If each name of a counter has more than a prefix, a map is returned, in which the value of a name
  -- is the sum of the values of the counters that pass the filter and have this name without their
  -- prefix.
  pub map_counters_from_store_lem :
      (counters : List (Chars × ℕ))
      → AllNamed counters
      → (out : List (Chars × ℕ)) × (map_counters_from_store is_number filter counters ≡ ok out)
        × ((name : Chars) → value_at name out ≡ sum_named name 0 counters)
  unfolding map_counters_from_store
  map_counters_from_store_lem counters named = map_counters_lem [] counters named
