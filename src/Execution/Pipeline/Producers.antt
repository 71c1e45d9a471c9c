-- ===== src/Execution/Pipeline/Producers.antt =====
-- Who produces an output, as src/adapt/execution/pipeline_builder.py tabulates it.
use adapt.Prelude.{
  ◌≡◌, refl, ◌∙◌, inl, inr, Bool, true, false, ◌&&◌, Option, none, some, List, [], ◌∷◌, arith, Text,
  text_eq, text_beq_iff, ◌==◌, beq_refl, if◌then◌else◌, any_of, mem, Bool-cases, Option-cases,
}
use adapt.Dict.{Dict, get, put, get-put}
use adapt.Execution.Node.{BaseModule}
use adapt.Execution.Pipeline.{add_producer, producers}

abbrev first_of : Option Text → Option Text → Option Text
first_of none b = b
first_of (some a) b = some a

get-add_producer :
    (out : Text) (outputs : List Text) (name : Text) (d : Dict Text Text)
    → get out (add_producer outputs name d) ≡ (if mem out outputs then some name else get out d)
unfolding add_producer
get-add_producer out [] name d = refl
get-add_producer out (o ∷ outputs) name d =
    get-add_producer out outputs name (put o name d)
    ∙ ground (arith, get-put o out name d, text_beq_iff o out, text_beq_iff out o)

-- The tabulated one, if nothing behind it has the output.
given_name :
    (b : Bool) (name : Text) (o : Option Text)
    → (if b then some name else o) ≡ first_of (if b then some name else none) o
given_name true name o = refl
given_name false name o = refl

module _ {V W : Type 0} where
  abbrev pub produces : Text → BaseModule V W → Bool
  produces out m = mem out m.outputs

  -- The last module with the output.
  last_producer : Text → List (BaseModule V W) → Option Text
  last_producer out [] = none
  last_producer out (m ∷ ms) = elim (last_producer out ms) [
    | some src ↦ some src
    | none ↦ if produces out m then some m.name else none
  ]

  get-producers :
      (out : Text) (ms : List (BaseModule V W)) (d : Dict Text Text)
      → get out (producers ms d) ≡ first_of (last_producer out ms) (get out d)
  unfolding producers last_producer
  get-producers out [] d = refl
  get-producers out (m ∷ ms) d =
      get-producers out ms (add_producer m.outputs m.name d)
      ∙ elim (Option-cases (last_producer out ms)) [
        | inl (src, e) ↦ rw e refl
        | inr none_yet ↦ rw none_yet (
            get-add_producer out m.outputs m.name d
            ∙ given_name (mem out m.outputs) m.name (get out d))
      ]

  last_producer-none :
      (out : Text) (ms : List (BaseModule V W))
      → any_of (produces out) ms ≡ false
      → last_producer out ms ≡ none
  unfolding last_producer
  last_producer-none out [] h = refl
  last_producer-none out (m ∷ ms) h = rw (last_producer-none out ms (ground arith)) (ground arith)

  -- An output that some module has is tabulated under a module that has it.
  last_producer-produces :
      (out : Text) (ms : List (BaseModule V W))
      → any_of (produces out) ms ≡ true
      → (src : Text) × (last_producer out ms ≡ some src)
        × (any_of (λ m. m.name == src && produces out m) ms ≡ true)
  unfolding last_producer
  last_producer-produces out [] h = absurd (ground arith)
  last_producer-produces out (m ∷ ms) h = elim (Bool-cases (any_of (produces out) ms)) [
    | inl later ↦
        let (src, e, found) = last_producer-produces out ms later in
        (src, rw e refl, ground (arith, found))
    | inr last ↦ (
      m.name,
      rw (last_producer-none out ms last) (ground (arith, last)),
      ground (arith, last, beq_refl m.name),
    )
  ]

  -- So is the table that the code makes.
  pub producers-produces :
      (out : Text) (ms : List (BaseModule V W))
      → any_of (produces out) ms ≡ true
      → (src : Text) × (get out (producers ms []) ≡ some src)
        × (any_of (λ m. m.name == src && produces out m) ms ≡ true)
  producers-produces out ms h =
      let (src, e, found) = last_producer-produces out ms h in
      (src, get-producers out ms [] ∙ rw e refl, found)
