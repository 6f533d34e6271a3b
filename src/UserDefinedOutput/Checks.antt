-- ===== src/UserDefinedOutput/Checks.antt =====
-- What the configuration of the logging plugin is checked for:
-- source/user_defined_output/log_response_headers_plugin.cc.
use text.Mathlib.Text.{◌==◌ as str_eq}
use text.Mathlib.TextEquality.{eq_iff}
use nighthawk.Base.{
  ◌≡◌, ◌≢◌, ◌↔◌, refl, sym, subst, inl, inr, Bool, true, false, if◌then◌else◌, Bool-cases, List, [],
  ◌∷◌, map, String, All, arith,
}
use nighthawk.Base.Status.{StatusOr, Error, ok, error, ◌>>=◌, ok-injective}
use nighthawk.UserDefinedOutput.{
  LogResponseHeadersConfig, has_name, is_unknown, validate_names, validate_config,
  create_user_defined_output_plugin,
}

abbrev pub IsDistinct : List String → Type 0
IsDistinct [] = Unit
IsDistinct (n ∷ names) = All (λ m. n ≢ m) names × IsDistinct names

str_eq-false : (s t : String) → (str_eq s t ≡ false) ↔ (s ≢ t)
str_eq-false s t = elim (Bool-cases (str_eq s t)) [
  | inl same ↦ (
    λ different. ground (arith, same, different),
    λ distinct. absurd (distinct ((eq_iff s t).0 same)),
  )
  | inr different ↦ (λ h e. ground (arith, different, (eq_iff s t).1 e), λ distinct. different)
]

has_name-All :
    (names : List String) (name : String)
    → (has_name names name ≡ false) ↔ All (λ n. n ≢ name) names
has_name-All [] name = (λ h. tt, λ h. refl)
has_name-All (n ∷ names) name =
    let (distinct, different) = str_eq-false n name in
    let (later, none_later) = has_name-All names name in
    (
      λ h. (distinct (ground (arith, h)), later (ground (arith, h))),
      λ (h, all). ground (arith, different h, none_later all),
    )

All-pair {ℓ κ ι} :
    {A : Type ℓ} (P : A → Type κ) (Q : A → Type ι) (xs : List A)
    → All (λ x. P x × Q x) xs ↔ (All P xs × All Q xs)
All-pair P Q [] = (λ h. (tt, tt), λ h. tt)
All-pair P Q (x ∷ xs) =
    let (apart, together) = All-pair P Q xs in
    (
      λ ((p, q), rest). ((p, (apart rest).0), (q, (apart rest).1)),
      λ ((p, ps), (q, qs)). ((p, q), together (ps, qs)),
    )

All-map {ℓ κ ι} :
    {A : Type ℓ} {B : Type κ} (P : B → Type ι) (f : A → B) (xs : List A)
    → All P (map f xs) ↔ All (λ x. P (f x)) xs
All-map P f [] = (λ h. tt, λ h. tt)
All-map P f (x ∷ xs) =
    let (there, back) = All-map P f xs in (λ (p, ps). (p, there ps), λ (p, ps). (p, back ps))

All-unit {ℓ} : {A : Type ℓ} (xs : List A) → All (λ x. Unit {0}) xs
All-unit [] = tt
All-unit (x ∷ xs) = (tt, All-unit xs)

-- A test that must fail before the rest.
test_fails :
    (a : Bool) (e : Error) (rest : StatusOr (Unit {0}))
    → ((if a then error e else rest) ≡ ok tt) ↔ ((a ≡ false) × (rest ≡ ok tt))
test_fails true e rest = (λ h. ground (arith, h), λ (h, i). ground (arith, h))
test_fails false e rest = (λ h. (refl, h), λ (h, i). i)

accepted :
    {A : Type 0} (v : StatusOr (Unit {0})) (c config : A)
    → ((v >>= λ valid. ok c) ≡ ok config) ↔ ((v ≡ ok tt) × (ok c ≡ ok config))
accepted (ok u) c config = (λ h. (refl, h), λ (passes, h). h)
accepted (error e) c config = (λ h. ground (arith, h), λ (passes, h). ground (arith, passes))

module _ (lower_case_string : String → String) where
  -- A mode is chosen, and no name is empty or there twice, in upper or lower case.
  pub IsValid : LogResponseHeadersConfig → Type 0
  IsValid config =
      (is_unknown config.logging_mode ≡ false)
      × All (λ name. name ≢ "") config.log_headers_with_name
      × IsDistinct (map lower_case_string config.log_headers_with_name)

  validate_names_cons :
      (seen names : List String) (name : String)
      → (validate_names lower_case_string seen (name ∷ names) ≡ ok tt) ↔ (
          (name ≢ "")
          × All (λ s. s ≢ lower_case_string name) seen
          × (validate_names lower_case_string (lower_case_string name ∷ seen) names ≡ ok tt))
  unfolding validate_names
  validate_names_cons seen names name =
      let (distinct, different) = str_eq-false name "" in
      let (fresh, not_contained) = has_name-All seen (lower_case_string name) in
      let (fail_first, pass_first) = test_fails (str_eq name "") _ _ in
      let (fail, pass) =
        test_fails (has_name seen (lower_case_string name)) _
          (validate_names lower_case_string (lower_case_string name ∷ seen) names) in
      (
        λ h.
            let (h1, more) = fail_first h in
            let (h2, h3) = fail more in (distinct h1, fresh h2, h3),
        λ (h1, h2, h3). pass_first (different h1, pass (not_contained h2, h3)),
      )

  validate_names_lem :
      (seen names : List String)
      → (validate_names lower_case_string seen names ≡ ok tt) ↔ (
          All (λ name. name ≢ "") names
          × All (λ name. All (λ s. s ≢ lower_case_string name) seen) names
          × IsDistinct (map lower_case_string names))
  unfolding validate_names
  validate_names_lem seen [] = (λ h. (tt, tt, tt), λ h. refl)
  validate_names_lem seen (name ∷ names) =
      let low = lower_case_string name in
      let (first, all) = validate_names_cons seen names name in
      let (rest, valid_rest) = validate_names_lem (low ∷ seen) names in
      let (apart, together) =
        All-pair (λ n. low ≢ lower_case_string n) (λ n. All (λ s. s ≢ lower_case_string n) seen)
          names in
      let (there, back) = All-map (λ m. low ≢ m) lower_case_string names in
      (
        λ h.
            let (filled, fresh, h1) = first h in
            let (all_filled, all_fresh, distinct) = rest h1 in
            let (first_apart, seen_apart) = apart all_fresh in
            ((filled, all_filled), (fresh, seen_apart), (back first_apart, distinct)),
        λ ((filled, all_filled), (fresh, seen_apart), (first_apart, distinct)). all (
          filled,
          fresh,
          valid_rest (all_filled, together (there first_apart, seen_apart), distinct),
        ),
      )

  validate_config_lem :
      (config : LogResponseHeadersConfig)
      → (validate_config lower_case_string config ≡ ok tt) ↔ IsValid config
  unfolding validate_config IsValid
  validate_config_lem config =
      let (parts, all) = validate_names_lem [] config.log_headers_with_name in
      let (fail, pass) =
        test_fails (is_unknown config.logging_mode) _
          (validate_names lower_case_string [] config.log_headers_with_name) in
      (
        λ h.
            let (known, h1) = fail h in
            let (filled, fresh, distinct) = parts h1 in (known, filled, distinct),
        λ (known, filled, distinct).
            pass (known, all (filled, All-unit config.log_headers_with_name, distinct)),
      )

  makes :
      (r : StatusOr LogResponseHeadersConfig) (config : LogResponseHeadersConfig)
      → ((r >>= λ c. validate_config lower_case_string c >>= λ valid. ok c) ≡ ok config)
        ↔ ((r ≡ ok config) × (validate_config lower_case_string config ≡ ok tt))
  makes (error e) config = (λ h. ground (arith, h), λ (h, valid). ground (arith, h))
  makes (ok c) config =
      let (first, second) = accepted (validate_config lower_case_string c) c config in
      (
        λ h.
            let (passes, same) = first h in
            (
              same,
              subst (λ x. validate_config lower_case_string x ≡ ok tt) (ok-injective c config same)
                  passes,
            ),
        λ (same, passes). second (
          subst (λ x. validate_config lower_case_string x ≡ ok tt)
              (sym (ok-injective c config same)) passes,
          same,
        ),
      )

  -- The factory makes a plugin of a configuration that is read from its message exactly if it is
  -- valid: it has a mode, no name is empty, and no two names are the same in lower case.
  pub create_user_defined_output_plugin_lem :
      {M : Type 0} (unpack_to : M → StatusOr LogResponseHeadersConfig) (config_any : M)
      (config : LogResponseHeadersConfig)
      → (create_user_defined_output_plugin lower_case_string unpack_to config_any ≡ ok config)
        ↔ ((unpack_to config_any ≡ ok config) × IsValid config)
  unfolding create_user_defined_output_plugin
  create_user_defined_output_plugin_lem unpack_to config_any config =
      let (made, make) = makes (unpack_to config_any) config in
      let (checked, check) = validate_config_lem config in
      (
        λ h. let (read, passes) = made h in (read, checked passes),
        λ (read, valid). make (read, check valid),
      )
