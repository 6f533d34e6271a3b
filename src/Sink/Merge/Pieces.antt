-- ===== src/Sink/Merge/Pieces.antt =====
-- What a successful merge has merged: mergeExecutionResponses() of service_impl.cc.
use text.Mathlib.Text.{◌==◌ as str_eq}
use text.Mathlib.TextEquality.{eq_iff}
use nighthawk.Base.{
  Bool, true, false, if◌then◌else◌, List, [], ◌∷◌, ◌++◌, append_assoc, append-nil, some, String,
  ◌≡◌, refl, ap, ap₂, subst, sym, arith, inl, inr, ◌∙◌, All,
}
use nighthawk.Base.Status.{StatusOr, ok, error, Error, ◌>>=◌, StatusOr-cases, ok-injective}
use nighthawk.Sink.Merge.{
  Output, ExecutionResponse, Aggregate, Messages, nothing_yet, options_or, details_of,
  append_results, merge_checked, merge_into, merge_output, merge_response, merge_all,
  merge_execution_responses,
}

if-ok :
    {A : Type 0} (b : Bool) (x : StatusOr A) (e : Error) (y : A)
    → (if b then x else error e) ≡ ok y
    → (b ≡ true) × (x ≡ ok y)
if-ok true x e y h = (refl, h)
if-ok false x e y h = ground (arith, h)

All-weaken :
    {A : Type 0} {P Q : A → Type 0} (xs : List A) → ((x : A) → P x → Q x) → All P xs → All Q xs
All-weaken [] f all = tt
All-weaken (x ∷ xs) f all = (f x all.0, All-weaken xs f all.1)

bind-ok :
    {A B : Type 0} (m : StatusOr A) (f : A → StatusOr B) (y : B)
    → (m >>= f) ≡ ok y
    → (a : A) × (m ≡ ok a) × (f a ≡ ok y)
bind-ok (ok a) f y h = (a, refl, h)
bind-ok (error e) f y h = ground (arith, h)

module _ {O V R E : Type 0} where
  abbrev pub all_results : List (ExecutionResponse O V R E) → List R
  all_results [] = []
  all_results (r ∷ rs) = r.output.results ++ all_results rs

  abbrev pub all_details : List (ExecutionResponse O V R E) → List E
  all_details [] = []
  all_details (r ∷ rs) = details_of r.error_detail ++ all_details rs

module _ {O V R E : Type 0} (messages : Messages O V) where
  open messages use {default_options, default_version, same_options, same_version}

  abbrev pub options_of : ExecutionResponse O V R E → O
  options_of r = options_or default_options r.output.options

  -- A response of the execution that agrees with the first one.
  abbrev pub AgreesWith : ExecutionResponse O V R E → ExecutionResponse O V R E → Type 0
  AgreesWith first r =
      (same_options (options_of r) (options_of first) ≡ true)
      × (same_version r.output.version first.output.version ≡ true)

  abbrev Piece : String → O → V → ExecutionResponse O V R E → Type 0
  Piece id o v r =
      (r.execution_id ≡ id)
      × (same_options (options_of r) o ≡ true)
      × (same_version r.output.version v ≡ true)

  merge_all-error :
      (id : String) (rs : List (ExecutionResponse O V R E)) (e : Error)
      → merge_all messages id rs (error e) ≡ error e
  unfolding merge_all
  merge_all-error id [] e = refl
  merge_all-error id (r ∷ rs) e = merge_all-error id rs e

  merge_response-ok :
      (id : String) (r : ExecutionResponse O V R E) (details : List E) (o : O)
      (target : Output O V R) (merged : List E × Output O V R)
      → target.options ≡ some o
      → merge_response messages id r (details, target) ≡ ok merged
      → Piece id o target.version r
        × ((details ++ details_of r.error_detail, append_results messages r.output target) ≡ merged)
  unfolding merge_response merge_output merge_into merge_checked
  merge_response-ok id r details o target merged has h =
      let (same, h1) = if-ok (str_eq r.execution_id id) _ _ merged h in
      let (t, h2, e) = bind-ok (merge_output messages r.output target) _ merged h1 in
      let (agreed, h3) =
        if-ok (same_options (options_of r) o) _ _ t
          (subst (λ x. merge_into messages x r.output target ≡ ok t) has h2) in
      let (current, e') = if-ok (same_version r.output.version target.version) _ _ t h3 in
      (
        ((eq_iff r.execution_id id).0 same, agreed, current),
        ap (λ x. (details ++ details_of r.error_detail, x)) (ok-injective _ _ e')
            ∙ ok-injective _ _ e,
      )

  merge_all-ok :
      (id : String) (rs : List (ExecutionResponse O V R E)) (details : List E) (o : O)
      (target : Output O V R) (merged : List E × Output O V R)
      → target.options ≡ some o
      → merge_all messages id rs (ok (details, target)) ≡ ok merged
      → All (Piece id o target.version) rs
        × ((details ++ all_details rs, record target { results = target.results ++ all_results rs })
            ≡ merged)
  unfolding merge_all append_results
  merge_all-ok id [] details o target merged has h = (
    tt,
    ap₂ (λ d x. (d, record target { results = x })) (append-nil details) (append-nil target.results)
        ∙ ok-injective _ _ h,
  )
  merge_all-ok id (r ∷ rs) details o target merged has h =
      elim (StatusOr-cases (merge_response messages id r (details, target))) [
        | inl (e, failed) ↦ ground (
          arith,
          sym (merge_all-error id rs e)
              ∙ subst (λ x. merge_all messages id rs x ≡ ok merged) failed h,
        )
        | inr (one, succeeded) ↦
            let (piece, e) = merge_response-ok id r details o target one has succeeded in
            let (pieces, e') =
              merge_all-ok id rs (details ++ details_of r.error_detail) o
                (append_results messages r.output target) merged has
                (subst (λ x. merge_all messages id rs x ≡ ok merged) (succeeded ∙ ap ok (sym e))
                  h) in
            (
              (piece, pieces),
              ap₂ (λ d x. (d, record target { results = x }))
                    (sym (append_assoc details (details_of r.error_detail) (all_details rs)))
                    (sym (append_assoc target.results r.output.results (all_results rs)))
                  ∙ e',
            )
      ]

  abbrev first_target : ExecutionResponse O V R E → Output O V R
  first_target r = append_results messages r.output (record {
    options = some (options_of r);
    timestamp = r.output.timestamp;
    version = r.output.version;
    results = [];
  })

  merge_all-first :
      (id : String) (first : ExecutionResponse O V R E) (rest : List (ExecutionResponse O V R E))
      (merged : List E × Output O V R)
      → merge_all messages id (first ∷ rest) (ok ([], nothing_yet messages)) ≡ ok merged
      → (first.execution_id ≡ id)
        × (merge_all messages id rest (ok (details_of first.error_detail, first_target first))
            ≡ ok merged)
  unfolding merge_all merge_response merge_output merge_into append_results
  merge_all-first id first rest merged h =
      elim (StatusOr-cases (merge_response messages id first ([], nothing_yet messages))) [
        | inl (e, failed) ↦ ground (
          arith,
          sym (merge_all-error id rest e)
              ∙ subst (λ x. merge_all messages id rest x ≡ ok merged) failed h,
        )
        | inr (one, succeeded) ↦
            let (same, e) = if-ok (str_eq first.execution_id id) _ _ one succeeded in
            (
              (eq_iff first.execution_id id).0 same,
              subst (λ x. merge_all messages id rest x ≡ ok merged) (succeeded ∙ sym e) h,
            )
      ]

  -- A merge that succeeds has merged at least one response: all of them have the requested id and
  -- agree with the first one in options and version; the aggregate has the first one's options and
  -- version, the error details of all and the results of all, each in the order of the responses.
  pub merge_execution_responses_lem :
      (id : String) (rs : List (ExecutionResponse O V R E)) (merged : Aggregate O V R E)
      → merge_execution_responses messages id rs ≡ ok merged
      → (first : ExecutionResponse O V R E) × (rest : List (ExecutionResponse O V R E)) × (rs
          ≡ first ∷ rest)
        × All (λ r. r.execution_id ≡ id) rs
        × All (AgreesWith first) rest
        × (merged.execution_id ≡ id)
        × (merged.details ≡ all_details rs)
        × (merged.output.options ≡ some (options_of first))
        × (merged.output.version ≡ first.output.version)
        × (merged.output.results ≡ all_results rs)
  unfolding merge_execution_responses append_results
  merge_execution_responses_lem id [] merged h = ground (arith, h)
  merge_execution_responses_lem id (first ∷ rest) merged h =
      let (a, h1, e) =
        bind-ok (merge_all messages id (first ∷ rest) (ok ([], nothing_yet messages)))
          (λ a. ok (record { execution_id = id; details = a.0; output = a.1 })) merged h in
      let (same, h2) = merge_all-first id first rest a h1 in
      let (pieces, e') =
        merge_all-ok id rest (details_of first.error_detail) (options_of first) (first_target first)
          a refl h2 in
      let whole = sym (ok-injective _ _ e) in
      (
        first,
        rest,
        refl,
        (same, All-weaken rest (λ r p. p.0) pieces),
        All-weaken rest (λ r p. (p.1, p.2)) pieces,
        ap (λ m. m.execution_id) whole,
        ap (λ m. m.details) whole ∙ sym (ap (λ x. x.0) e'),
        ap (λ m. m.output.options) whole ∙ sym (ap (λ x. x.1.options) e'),
        ap (λ m. m.output.version) whole ∙ sym (ap (λ x. x.1.version) e'),
        ap (λ m. m.output.results) whole ∙ sym (ap (λ x. x.1.results) e'),
      )
