-- ===== src/Client/Process/Outputs/Global.antt =====
-- What a plugin aggregates: source/client/process_impl.cc.
use nighthawk.Base.{
  ◌≡◌, refl, sym, ap, ap₂, ◌∙◌, true, false, Bool-cases, inl, inr, List, [], ◌∷◌, ◌++◌, map,
  append_assoc, append-nil, Option, none, some, String, arith,
}
use nighthawk.Base.Chars.{Chars, eq_chars, eq_chars→≡}
use nighthawk.Base.Status.{Error}
use nighthawk.Client.Process.Outputs.{
  UserDefinedOutput, PluginFactory, OutputsByPlugin, collect_one, collect_user_defined_outputs,
  collect_workers, find_outputs, global_output, compile_global_outputs, of_plugin, all_outputs,
  unless_empty,
}

-- The three comparisons of a step: of the output's plugin with the entry, of the wanted name with
-- the entry, and of the wanted name with the output's plugin.
compared : (name k p : Chars) (same : eq_chars p k ≡ true) → eq_chars name p ≡ eq_chars name k
compared name k p same = ap (eq_chars name) (eq_chars→≡ p k same)

differs :
    (name k p : Chars) → eq_chars p k ≡ false → eq_chars name k ≡ true → eq_chars name p ≡ false
differs name k p other found = elim (Bool-cases (eq_chars name p)) [
  | inr h ↦ h
  | inl h ↦ absurd (ground (arith, other, ap (λ x. eq_chars x k) (eq_chars→≡ name p h), found))
]

module _ {T : Type 0} where
  -- More outputs behind those that were found.
  abbrev extended :
      Option (List (UserDefinedOutput T))
      → List (UserDefinedOutput T)
      → Option (List (UserDefinedOutput T))
  extended none more = unless_empty more
  extended (some outputs) more = some (outputs ++ more)

  extended-nil : (found : Option (List (UserDefinedOutput T))) → extended found [] ≡ found
  extended-nil none = refl
  extended-nil (some outputs) = ap some (append-nil outputs)

  unless_empty-append :
      (outputs more : List (UserDefinedOutput T))
      → extended (unless_empty outputs) more ≡ unless_empty (outputs ++ more)
  unless_empty-append [] more = refl
  unless_empty-append (o ∷ outputs) more = refl

  extended-append :
      (found : Option (List (UserDefinedOutput T))) (outputs more : List (UserDefinedOutput T))
      → extended (extended found outputs) more ≡ extended found (outputs ++ more)
  extended-append none outputs more = unless_empty-append outputs more
  extended-append (some first) outputs more = ap some (append_assoc first outputs more)

  of_plugin-append :
      (name : Chars) (outputs more : List (UserDefinedOutput T))
      → of_plugin name (outputs ++ more) ≡ of_plugin name outputs ++ of_plugin name more
  of_plugin-append name [] more = refl
  of_plugin-append name (o ∷ outputs) more = elim (Bool-cases (eq_chars name o.plugin_name)) [
    | inl same ↦ rw same (ap (λ rest. o ∷ rest) (of_plugin-append name outputs more))
    | inr other ↦ rw other (of_plugin-append name outputs more)
  ]

  find_outputs-collect_one :
      (name : Chars) (by_plugin : OutputsByPlugin T) (o : UserDefinedOutput T)
      → find_outputs name (collect_one by_plugin o)
        ≡ extended (find_outputs name by_plugin) (of_plugin name (o ∷ []))
  unfolding find_outputs collect_one
  find_outputs-collect_one name [] o = elim (Bool-cases (eq_chars name o.plugin_name)) [
    | inl same ↦ rw same refl
    | inr other ↦ rw other refl
  ]
  find_outputs-collect_one name ((k, outputs) ∷ by_plugin) o =
      elim (Bool-cases (eq_chars o.plugin_name k)) [
        | inl here ↦
            rw (here, compared name k o.plugin_name here)
              (elim (Bool-cases (eq_chars name k)) [
                | inl wanted ↦ rw wanted refl
                | inr unwanted ↦ rw unwanted (sym (extended-nil (find_outputs name by_plugin)))
              ])
        | inr elsewhere ↦ elim (Bool-cases (eq_chars name k)) [
          | inl wanted ↦
              rw (elsewhere, wanted, differs name k o.plugin_name elsewhere wanted)
                (ap some (sym (append-nil outputs)))
          | inr unwanted ↦ rw (elsewhere, unwanted) (find_outputs-collect_one name by_plugin o)
        ]
      ]

  find_outputs-collect :
      (name : Chars) (by_plugin : OutputsByPlugin T) (outputs : List (UserDefinedOutput T))
      → find_outputs name (collect_user_defined_outputs by_plugin outputs)
        ≡ extended (find_outputs name by_plugin) (of_plugin name outputs)
  unfolding collect_user_defined_outputs
  find_outputs-collect name by_plugin [] = sym (extended-nil (find_outputs name by_plugin))
  find_outputs-collect name by_plugin (o ∷ outputs) =
      find_outputs-collect name (collect_one by_plugin o) outputs
      ∙ ap (λ found. extended found (of_plugin name outputs))
          (find_outputs-collect_one name by_plugin o)
      ∙ extended-append (find_outputs name by_plugin) (of_plugin name (o ∷ []))
          (of_plugin name outputs)
      ∙ ap (extended (find_outputs name by_plugin)) (sym (of_plugin-append name (o ∷ []) outputs))

  find_outputs-collect_workers :
      (name : Chars) (by_plugin : OutputsByPlugin T) (workers : List (List (UserDefinedOutput T)))
      → find_outputs name (collect_workers by_plugin workers)
        ≡ extended (find_outputs name by_plugin) (of_plugin name (all_outputs workers))
  unfolding collect_workers
  find_outputs-collect_workers name by_plugin [] = sym (extended-nil (find_outputs name by_plugin))
  find_outputs-collect_workers name by_plugin (outputs ∷ workers) =
      find_outputs-collect_workers name (collect_user_defined_outputs by_plugin outputs) workers
      ∙ ap (λ found. extended found (of_plugin name (all_outputs workers)))
          (find_outputs-collect name by_plugin outputs)
      ∙ extended-append (find_outputs name by_plugin) (of_plugin name outputs)
          (of_plugin name (all_outputs workers))
      ∙ ap (extended (find_outputs name by_plugin))
          (sym (of_plugin-append name outputs (all_outputs workers)))

  -- For each configured plugin, in order, the global output is the one that its factory makes of the
  -- outputs of this plugin, in the order of the workers and of their outputs: the aggregated output,
  -- or the text of the error, and a fixed error message if no worker has an output of the plugin.
  pub compile_global_outputs_lem :
      (to_text : Error → String) (workers : List (List (UserDefinedOutput T)))
      (factories : List (PluginFactory T))
      → compile_global_outputs to_text (collect_workers [] workers) factories
        ≡ map
            (λ factory.
              global_output to_text factory
                (unless_empty (of_plugin factory.name (all_outputs workers))))
            factories
  unfolding compile_global_outputs find_outputs
  compile_global_outputs_lem to_text workers [] = refl
  compile_global_outputs_lem to_text workers (factory ∷ factories) =
      ap₂ (λ o os. o ∷ os)
        (ap (global_output to_text factory) (find_outputs-collect_workers factory.name [] workers))
        (compile_global_outputs_lem to_text workers factories)
