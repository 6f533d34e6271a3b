-- ===== src/Common/Termination/Laws.antt =====
-- What a chain of termination predicates decides: termination_predicate_impl.cc.
use nighthawk.Base.{ℕ, ◌+◌, ◌*◌, ◌<◌, ◌≡◌, refl, ap, sym, ◌∙◌, ◌↔◌, List, [], ◌∷◌, ◌++◌, map, arith}
use nighthawk.Base.Result.{ok}
use nighthawk.Common.Termination.{
  Status, proceed, terminate, fail, World, Predicate, duration, Chain, alone, linked, evaluate,
  link, append_to_chain, after_child, evaluate_chain, innermost_first, first_stop,
}

after_child_assoc :
    (a b c : Status) → after_child (after_child a b) c ≡ after_child a (after_child b c)
unfolding after_child
after_child_assoc proceed b c = refl
after_child_assoc terminate b c = refl
after_child_assoc fail b c = refl

-- The statuses of predicates, in their order.
abbrev pub statuses : World → List Predicate → List Status
statuses w predicates = map (evaluate w) predicates

statuses-append :
    (w : World) (ps : List Predicate) (p : Predicate)
    → statuses w (ps ++ (p ∷ [])) ≡ statuses w ps ++ (evaluate w p ∷ [])
statuses-append w [] p = refl
statuses-append w (q ∷ ps) p = ap (λ s. evaluate w q ∷ s) (statuses-append w ps p)

first_stop-alone : (s : Status) → s ≡ first_stop (s ∷ [])
unfolding first_stop
first_stop-alone proceed = refl
first_stop-alone terminate = refl
first_stop-alone fail = refl

-- A status at the end counts only after all others have proceeded.
first_stop-append :
    (before : List Status) (s : Status)
    → after_child (first_stop before) s ≡ first_stop (before ++ (s ∷ []))
unfolding first_stop after_child
first_stop-append [] s = first_stop-alone s
first_stop-append (proceed ∷ before) s = first_stop-append before s
first_stop-append (terminate ∷ before) s = refl
first_stop-append (fail ∷ before) s = refl

-- The status of a chain is that of the first predicate that does not say `proceed`, asked from the
-- innermost child outwards; it is `proceed` if all of them say so.
pub evaluate_chain-first_stop :
    (w : World) (c : Chain) → evaluate_chain w c ≡ first_stop (map (evaluate w) (innermost_first c))
unfolding evaluate_chain innermost_first
evaluate_chain-first_stop w (alone p) = first_stop-alone (evaluate w p)
evaluate_chain-first_stop w (linked p c) =
    ap (λ s. after_child s (evaluate w p)) (evaluate_chain-first_stop w c)
    ∙ first_stop-append (statuses w (innermost_first c)) (evaluate w p)
    ∙ ap first_stop (sym (statuses-append w (innermost_first c) p))

-- Appending to a chain never aborts, and the appended predicates are evaluated before all of the
-- chain: the new status is theirs unless it is `proceed`, and else that of the old chain.
pub evaluate_chain-append_to_chain :
    (w : World) (c child : Chain)
    → (r : Chain) × (append_to_chain c child ≡ ok r)
      × (evaluate_chain w r ≡ after_child (evaluate_chain w child) (evaluate_chain w c))
unfolding append_to_chain link evaluate_chain
evaluate_chain-append_to_chain w (alone p) child = (linked p child, refl, refl)
evaluate_chain-append_to_chain w (linked p c) child =
    let (r, appended, status) = evaluate_chain-append_to_chain w c child in
    (
      linked p r,
      rw appended,
      ap (λ s. after_child s (evaluate w p)) status
          ∙ after_child_assoc (evaluate_chain w child) (evaluate_chain w c) (evaluate w p),
    )

-- A duration predicate at the head of a chain whose children all proceed ends the run exactly when
-- more than the duration has passed since the start, to the nanosecond.
pub duration_ends :
    (w : World) (start length : ℕ) (c : Chain)
    → evaluate_chain w c ≡ proceed
    → (evaluate_chain w (linked (duration start length) c) ≡ terminate)
      ↔ (start + length * 1000 < w.monotonic_time)
unfolding evaluate_chain
duration_ends w start length c h = rw h (ground arith)
