-- ===== src/Execution/Pipeline.antt =====
-- The choice of the modules of a run, src/adapt/execution/pipeline_builder.py.
pub mod Producers
pub mod Selected
use adapt.Prelude.{
  ℕ, Bool, true, false, not, ◌&&◌, ◌||◌, Option, none, some, List, [], ◌∷◌, map, Text, text_eq,
  ◌==◌, if◌then◌else◌, keep, any_of, all_of, mem,
}
use adapt.Dict.{Dict, get, put}
use adapt.Exec.{Result, ok, raise, value_error}
use adapt.Execution.Node.{BaseModule}

-- `names or []`
abbrev pub given_names : Option (List Text) → List Text
given_names none = []
given_names (some names) = names

-- The set `enabled`, as a test of a name.
abbrev pub allowed : (all : List Text) → (modules : Option (List Text)) → Text → Bool
allowed all none name = mem name all
allowed all (some modules) name = mem name modules

-- An empty --only or --not is as if it was not given.
abbrev pub is_enabled :
    (all : List Text) → (modules : Option (List Text)) → (only exclude : List Text) → Text → Bool
is_enabled all modules (o ∷ only) exclude name = mem name (o ∷ only)
is_enabled all modules [] exclude name = allowed all modules name && not (mem name exclude)

-- producer[out] = m.name, for each output of one module
unfoldable pub add_producer :
    (outputs : List Text) → (name : Text) → Dict Text Text → Dict Text Text
add_producer [] name producer = producer
add_producer (out ∷ outputs) name producer = add_producer outputs name (put out name producer)

-- The input comes from a module that is not enabled.
abbrev pub lacks : (enabled : Text → Bool) → Dict Text Text → (input : Text) → Bool
lacks enabled producer input = elim (get input producer) [
  | none ↦ false
  | some src ↦ not (enabled src)
]

-- Every name is that of a module.
abbrev pub all_known : (all : List Text) → List Text → Bool
all_known all names = all_of (λ n. mem n all) names

module _ {V W : Type 0} where
  abbrev pub names_of : List (BaseModule V W) → List Text
  names_of ms = map (λ m. m.name) ms

  unfoldable pub producers : List (BaseModule V W) → Dict Text Text → Dict Text Text
  producers [] producer = producer
  producers (m ∷ ms) producer = producers ms (add_producer m.outputs m.name producer)

  abbrev pub any_lacking : (enabled : Text → Bool) → Dict Text Text → List (BaseModule V W) → Bool
  any_lacking enabled producer ms =
      any_of (λ m. enabled m.name && any_of (lacks enabled producer) m.inputs) ms

  unfoldable pub resolve_enabled_modules :
      (all_modules : List (BaseModule V W))
      → (modules only exclude : Option (List Text)) → Result (List (BaseModule V W))
  resolve_enabled_modules all_modules modules only exclude =
      let all = names_of all_modules in
      let enabled = is_enabled all modules (given_names only) (given_names exclude) in
      if all_known all (given_names modules)
        && (all_known all (given_names only) && all_known all (given_names exclude))
      then (if any_lacking enabled (producers all_modules []) all_modules
          then raise value_error
          else ok (keep (λ m. enabled m.name) all_modules))
      else raise value_error
