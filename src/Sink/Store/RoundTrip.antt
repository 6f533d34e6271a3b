-- ===== src/Sink/Store/RoundTrip.antt =====
-- Storing and loading pieces: InMemorySinkImpl of sink_impl.cc.
use text.Mathlib.Text.{◌==◌ as str_eq}
use text.Mathlib.TextEquality.{eq_iff}
use nighthawk.Base.{
  true, false, List, [], ◌∷◌, ◌++◌, Option, none, some, String, ◌≡◌, ◌≢◌, refl, ap, subst, sym,
  arith, Bool-cases, inl, inr, ◌∙◌,
}
use nighthawk.Base.Status.{ok, ◌>>=◌, StatusOr-cases, ok-injective}
use nighthawk.Sink.Merge.{ExecutionResponse}
use nighthawk.Sink.Store.{
  InMemorySink, validate_key, find, found, push, load_execution_result,
  store_execution_result_piece,
}

-- The pieces under a key, none if there is no such key.
abbrev pub pieces_of : {R : Type 0} → Option (List R) → List R
pieces_of none = []
pieces_of (some pieces) = pieces

str_eq_distinct : (s t : String) → s ≢ t → str_eq s t ≡ false
str_eq_distinct s t distinct = elim (Bool-cases (str_eq s t)) [
  | inl same ↦ absurd (distinct ((eq_iff s t).0 same))
  | inr different ↦ different
]

module _ {R : Type 0} where
  find_first :
      (key k : String) (pieces : List R) (sink : InMemorySink R)
      → str_eq k key ≡ true
      → find key ((k, pieces) ∷ sink) ≡ some pieces
  unfolding find
  find_first key k pieces sink same = rw same

  find_later :
      (key k : String) (pieces : List R) (sink : InMemorySink R)
      → str_eq k key ≡ false
      → find key ((k, pieces) ∷ sink) ≡ find key sink
  unfolding find
  find_later key k pieces sink different = rw different

  push_first :
      (key k : String) (r : R) (pieces : List R) (sink : InMemorySink R)
      → str_eq k key ≡ true
      → push key r ((k, pieces) ∷ sink) ≡ (k, pieces ++ (r ∷ [])) ∷ sink
  unfolding push
  push_first key k r pieces sink same = rw same

  push_later :
      (key k : String) (r : R) (pieces : List R) (sink : InMemorySink R)
      → str_eq k key ≡ false
      → push key r ((k, pieces) ∷ sink) ≡ (k, pieces) ∷ push key r sink
  unfolding push
  push_later key k r pieces sink different = rw different

  find-push :
      (key : String) (r : R) (sink : InMemorySink R)
      → find key (push key r sink) ≡ some (pieces_of (find key sink) ++ (r ∷ []))
  unfolding push find
  find-push key r [] = find_first key key (r ∷ []) [] ((eq_iff key key).1 refl)
  find-push key r ((k, pieces) ∷ sink) = elim (Bool-cases (str_eq k key)) [
    | inl same ↦
        ap (find key) (push_first key k r pieces sink same)
        ∙ find_first key k (pieces ++ (r ∷ [])) sink same
        ∙ sym (ap (λ o. some (pieces_of o ++ (r ∷ []))) (find_first key k pieces sink same))
    | inr different ↦
        ap (find key) (push_later key k r pieces sink different)
        ∙ find_later key k pieces (push key r sink) different
        ∙ find-push key r sink
        ∙ sym (ap (λ o. some (pieces_of o ++ (r ∷ []))) (find_later key k pieces sink different))
  ]

  find-push_other :
      (key other : String) (r : R) (sink : InMemorySink R)
      → other ≢ key
      → find other (push key r sink) ≡ find other sink
  unfolding push
  find-push_other key other r [] distinct =
      find_later other key (r ∷ []) [] (str_eq_distinct key other (λ e. distinct (sym e)))
  find-push_other key other r ((k, pieces) ∷ sink) distinct = elim (Bool-cases (str_eq k key)) [
    | inl same ↦
        let skipped : str_eq k other ≡ false =
          str_eq_distinct k other (λ e. distinct (sym e ∙ (eq_iff k key).0 same)) in
        ap (find other) (push_first key k r pieces sink same)
        ∙ find_later other k (pieces ++ (r ∷ [])) sink skipped
        ∙ sym (find_later other k pieces sink skipped)
    | inr different ↦
        ap (find other) (push_later key k r pieces sink different)
        ∙ (elim (Bool-cases (str_eq k other)) [
          | inl here ↦
              find_first other k pieces (push key r sink) here
              ∙ sym (find_first other k pieces sink here)
          | inr later ↦
              find_later other k pieces (push key r sink) later
              ∙ find-push_other key other r sink distinct
              ∙ sym (find_later other k pieces sink later)
        ])
  ]

module _ {O V R E : Type 0} where
  stored :
      (r : ExecutionResponse O V R E) (sink sink' : InMemorySink (ExecutionResponse O V R E))
      → store_execution_result_piece r sink ≡ ok sink'
      → (validate_key r.execution_id ≡ ok tt) × (push r.execution_id r sink ≡ sink')
  unfolding store_execution_result_piece
  stored r sink sink' h = elim (StatusOr-cases (validate_key r.execution_id)) [
    | inl (e, invalid) ↦
        ground (
          arith,
          subst (λ v. (v >>= λ valid. ok (push r.execution_id r sink)) ≡ ok sink') invalid h,
        )
    | inr (u, valid) ↦ (
      valid,
      ok-injective _ _
          (subst (λ v. (v >>= λ valid. ok (push r.execution_id r sink)) ≡ ok sink') valid h),
    )
  ]

  -- After a piece was stored, loading its execution gives the pieces that were stored for it before
  -- and then this piece, and loading any other execution gives what it gave before, an error
  -- included.
  pub store_load :
      (r : ExecutionResponse O V R E) (sink sink' : InMemorySink (ExecutionResponse O V R E))
      → store_execution_result_piece r sink ≡ ok sink'
      → (load_execution_result r.execution_id sink'
          ≡ ok (pieces_of (find r.execution_id sink) ++ (r ∷ [])))
        × ((other : String)
            → other ≢ r.execution_id
            → load_execution_result other sink' ≡ load_execution_result other sink)
  unfolding load_execution_result
  store_load r sink sink' h =
      let (valid, e) = stored r sink sink' h in
      (
        ap (λ v. v >>= λ valid. found r.execution_id (find r.execution_id sink')) valid
            ∙ ap (λ s. found r.execution_id (find r.execution_id s)) (sym e)
            ∙ ap (found r.execution_id) (find-push r.execution_id r sink),
        λ other distinct.
            ap (λ o. validate_key other >>= λ valid. found other o)
              (ap (find other) (sym e) ∙ find-push_other r.execution_id other r sink distinct),
      )
