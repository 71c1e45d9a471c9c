-- ===== src/Execution/Registry/Laws.antt =====
-- Registration in the registries (src/adapt/execution/module_registry.py and runtime/sources.py).
use adapt.Prelude.{
  ◌≡◌, refl, ap, ◌∙◌, ◌≢◌, inl, inr, false, some, List, [], ◌∷◌, ◌++◌, map, Text, text_eq, ◌==◌,
  if◌then◌else◌, Bool-cases, beq_refl,
}
use adapt.Dict.{Dict, get, has, values, get-put, has-put, put_new, UniqueKeys, put-UniqueKeys}
use adapt.Exec.{raise, runtime_error}
use adapt.Execution.Registry.{register, create_modules}

module _ {C : Type 0} where
  values-append : (d m : Dict Text C) → values (d ++ m) ≡ values d ++ values m
  values-append [] m = refl
  values-append ((k, v) ∷ d) m = ap (◌∷◌ v) (values-append d m)

  map-append_one :
      {M : Type 0} (f : C → M) (xs : List C) (x : C) → map f (xs ++ x ∷ []) ≡ map f xs ++ f x ∷ []
  map-append_one f [] x = refl
  map-append_one f (y ∷ xs) x = ap (◌∷◌ (f y)) (map-append_one f xs x)

  -- Registering a class under a name that is free and not empty makes the lookups find it, changes no other lookup,
  -- and puts its module behind the others; a second registration of the name is then refused and
  -- changes nothing.
  pub register_lem :
      {M : Type 0} (instantiate : C → M) (name other : Text) (cls again : C) (s : Dict Text C)
      → name ≢ []
      → has name s ≡ false
      → (get other (register name cls s).1 ≡ (if name == other then some cls else get other s))
        × (create_modules instantiate (register name cls s).1
            ≡ create_modules instantiate s ++ instantiate cls ∷ [])
        × (register name again (register name cls s).1
            ≡ (raise runtime_error, (register name cls s).1))
  unfolding register
  register_lem instantiate [] other cls again s filled new = absurd (filled refl)
  register_lem instantiate (c ∷ cs) other cls again s filled new = rw new (
    get-put (c ∷ cs) other cls s,
    ap (create_modules instantiate) (put_new (c ∷ cs) cls s new)
        ∙ ap (map instantiate) (values-append s ((c ∷ cs, cls) ∷ []))
        ∙ map-append_one instantiate (values s) cls,
    (rw (has-put (c ∷ cs) (c ∷ cs) cls s) (rw (beq_refl (c ∷ cs)))),
  )

  pub register-UniqueKeys :
      (name : Text) (cls : C) (s : Dict Text C) → UniqueKeys s → UniqueKeys (register name cls s).1
  unfolding register
  register-UniqueKeys [] cls s u = u
  register-UniqueKeys (c ∷ cs) cls s u = elim (Bool-cases (has (c ∷ cs) s)) [
    | inl taken ↦ rw taken u
    | inr new ↦ rw new (put-UniqueKeys (c ∷ cs) cls s u)
  ]
