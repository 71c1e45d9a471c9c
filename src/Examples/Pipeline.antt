-- ===== src/Examples/Pipeline.antt =====
-- Tests of the choice of the modules.
use adapt.Prelude.{ℕ, ◌≡◌, refl, Option, none, some, List, [], ◌∷◌, Text, codes, text_eq, mem, All}
use adapt.Dict.{get, put}
use adapt.Exec.{ok, raise, value_error, pure}
use adapt.Execution.Node.{BaseModule}
use adapt.Execution.Pipeline.{names_of, add_producer, producers, resolve_enabled_modules}
use adapt.Execution.Pipeline.Selected.{
  IsSupplied, resolve_enabled_modules-IsSupplied, resolve_enabled_modules-only,
}

abbrev module_with : (name : Text) → (inputs outputs : List Text) → BaseModule ℕ Unit
module_with name inputs outputs = record {
  name = name;
  inputs = inputs;
  outputs = outputs;
  input_contracts = [];
  output_contracts = [];
  run = λ c. pure [];
}

abbrev registered : List (BaseModule ℕ Unit)
registered =
    module_with (codes "ingest") (codes "file" ∷ []) (codes "grid" ∷ [])
    ∷ module_with (codes "detection") (codes "grid" ∷ []) (codes "labels" ∷ [])
    ∷ module_with (codes "tracking") (codes "labels" ∷ []) (codes "tracks" ∷ [])
    ∷ []

without_tracking :
    resolve_enabled_modules registered none none (some (codes "tracking" ∷ []))
    ≡ ok (
        module_with (codes "ingest") (codes "file" ∷ []) (codes "grid" ∷ [])
        ∷ module_with (codes "detection") (codes "grid" ∷ []) (codes "labels" ∷ [])
        ∷ [])
unfolding resolve_enabled_modules add_producer producers get put
without_tracking = refl

without_detection :
    resolve_enabled_modules registered none none (some (codes "detection" ∷ [])) ≡ raise value_error
unfolding resolve_enabled_modules add_producer producers get put
without_detection = refl

-- The allowlist has ingest alone, and --only names detection too.
abbrev allowlist : Option (List Text)
allowlist = some (codes "ingest" ∷ [])

abbrev two_names : List Text
two_names = codes "ingest" ∷ codes "detection" ∷ []

abbrev two_modules : List (BaseModule ℕ Unit)
two_modules =
    module_with (codes "ingest") (codes "file" ∷ []) (codes "grid" ∷ [])
    ∷ module_with (codes "detection") (codes "grid" ∷ []) (codes "labels" ∷ [])
    ∷ []

only_two : resolve_enabled_modules registered allowlist (some two_names) none ≡ ok two_modules
unfolding resolve_enabled_modules add_producer producers get put
only_two = refl

resolve_enabled_modules-IsSupplied_example : All (IsSupplied registered two_modules) two_modules
resolve_enabled_modules-IsSupplied_example =
    resolve_enabled_modules-IsSupplied registered allowlist (some two_names) none two_modules
      only_two

resolve_enabled_modules-only_example :
    mem (codes "detection") (names_of two_modules) ≡ mem (codes "detection") two_names
resolve_enabled_modules-only_example =
    resolve_enabled_modules-only registered allowlist (codes "ingest") (codes "detection" ∷ []) none
      two_modules (codes "detection") only_two
