-- ===== src/Execution/Registry.antt =====
-- ModuleRegistry of src/adapt/execution/module_registry.py and SourceRegistry of
-- src/adapt/runtime/sources.py: classes by their names. C is the type of the classes, M that of the
-- instances that a class makes.
pub mod Laws
use adapt.Prelude.{
  ℕ, Bool, true, false, Option, none, some, List, [], ◌∷◌, map, Text, text_eq, if◌then◌else◌,
  length,
}
use adapt.Dict.{Dict, get, put, has, keys, values, pop}
use adapt.Exec.{
  Exec, Result, ok, raise, pure, throw, need, modify, value_error, runtime_error, key_error,
}

module _ {C : Type 0} where
  -- SourceRegistry.register
  unfoldable pub register_source : (name : Text) → C → Exec (Dict Text C) (Unit {0})
  register_source name cls s =
      if has name s then (raise runtime_error, s) else (ok tt, put name cls s)

  -- ModuleRegistry.register, of a class with the name given
  unfoldable pub register : (name : Text) → C → Exec (Dict Text C) (Unit {0})
  unfolding register_source
  register name cls s = elim name [
    | [] ↦ (raise value_error, s)
    | c ∷ cs ↦ register_source (c ∷ cs) cls s
  ]

  -- get of both registries
  unfoldable pub lookup : (name : Text) → Exec (Dict Text C) C
  lookup name s = need key_error (get name s) s

  -- list_modules, names
  abbrev pub list_modules : Dict Text C → List Text
  list_modules = keys

  -- create_modules, with the call of a class as a function
  abbrev pub create_modules : {M : Type 0} → (C → M) → Dict Text C → List M
  create_modules instantiate s = map instantiate (values s)

  abbrev pub unregister : (name : Text) → Exec (Dict Text C) (Unit {0})
  unregister name s = (ok tt, pop name s)

  abbrev pub clear : Exec (Dict Text C) (Unit {0})
  clear s = (ok tt, [])
