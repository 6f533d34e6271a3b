-- ===== src/Client/Process/Tests.antt =====
-- Concrete plugins, outputs and starts.
use nighthawk.Base.{ℕ, ◌≡◌, refl, List, [], ◌∷◌, map, length, some, String, arith}
use nighthawk.Base.Chars.{Chars, codes}
use nighthawk.Base.Status
use nighthawk.Base.Status.{StatusOr, Error, fail_with, not_found}
use nighthawk.Common.RateLimiter.{Now}
use nighthawk.Client.Process.Outputs.{
  UserDefinedOutput, PluginFactory, typed_output, collect_workers, compile_global_outputs,
  global_output, of_plugin, all_outputs, unless_empty,
}
use nighthawk.Client.Process.Outputs.Global.{compile_global_outputs_lem}
use nighthawk.Client.Process.Starts.{
  create_workers, compute_first_worker_start, compute_inter_worker_delay,
}
use nighthawk.Client.Process.Starts.Order.{create_workers_lem, StartInOrder}

-- The output of a plugin is a number, and a global output is how many there are.
abbrev counting : Chars → PluginFactory ℕ
counting name = record {
  name = name;
  aggregate_global_output = λ outputs. Status.ok (length outputs);
}

abbrev output : Chars → ℕ → UserDefinedOutput ℕ
output name value = record { plugin_name = name; result = typed_output value }

abbrev outputs : List (List (UserDefinedOutput ℕ))
outputs = (output (codes "a") 1 ∷ output (codes "b") 2 ∷ []) ∷ (output (codes "a") 3 ∷ []) ∷ []

compile_global_outputs_lem_example :
    compile_global_outputs
      (λ e. e.message)
      (collect_workers [] outputs)
      (counting (codes "a") ∷ counting (codes "c") ∷ [])
    ≡ map
        (λ factory.
          global_output
            (λ e. e.message)
            factory
            (unless_empty (of_plugin factory.name (all_outputs outputs))))
        (counting (codes "a") ∷ counting (codes "c") ∷ [])
compile_global_outputs_lem_example =
    compile_global_outputs_lem (λ e. e.message) outputs
      (counting (codes "a") ∷ counting (codes "c") ∷ [])

abbrev now : Now
now = record { monotonic_time = 1000; system_time = 500 }

-- A worker is its number, start and plugins.
abbrev make : ℕ → ℕ → String → ℕ × ℕ × String
make number start plugins = (number, start, plugins)

abbrev two_workers : List (ℕ × ℕ × String)
two_workers = (0, 2500, "p") ∷ (1, 50002500, "p") ∷ []

created : create_workers (λ n. Status.ok "p") make now (some 2000) 2 10 ≡ Status.ok two_workers
unfolding create_workers
created = refl

create_workers_lem_example :
    (length two_workers ≡ 2)
    × StartInOrder
        (λ n. Status.ok "p")
        make
        0
        (compute_first_worker_start now (some 2000) 2)
        (compute_inter_worker_delay 2 10)
        10
        two_workers
create_workers_lem_example =
    create_workers_lem (λ n. Status.ok "p") make now (some 2000) 2 10 two_workers (omega arith)
      created
