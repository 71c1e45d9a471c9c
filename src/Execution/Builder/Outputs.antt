-- ===== src/Execution/Builder/Outputs.antt =====
-- Which module lists GraphBuilder.build refuses.
use adapt.Prelude.{Bool, true, false, not, List, [], ◌∷◌, ◌++◌, Text, text_eq, mem, all_of}
use adapt.Dict.{Dict, has}
use adapt.Exec.{Result, ok, raise}
use adapt.Execution.Node.{Node}

abbrev unused : Dict Text Text → List Text → Bool
unused m = all_of (λ o. not (has o m))

abbrev is_ok {ℓ} : {A : Type ℓ} → Result A → Bool
is_ok (ok a) = true
is_ok (raise e) = false

abbrev pub all_outputs : {V W : Type 0} → List (Node V W) → List Text
all_outputs [] = []
all_outputs (n ∷ ns) = n.module_.outputs ++ all_outputs ns

abbrev none_of : List Text → List Text → Bool
none_of xs = all_of (λ o. not (mem o xs))
