-- ===== src/Execution/Pipeline/Selected.antt =====
-- What src/adapt/execution/pipeline_builder.py selects.
use adapt.Prelude.{
  ◌≡◌, refl, sym, ap, subst, ◌∙◌, inl, inr, Bool, true, false, ◌&&◌, Option, some, List, [], ◌∷◌,
  arith, Text, text_eq, text_beq_iff, ◌==◌, if◌then◌else◌, keep, any_of, mem, All, Bool-cases,
}
use adapt.Dict.{get}
use adapt.Exec.{ok, raise, value_error}
use adapt.Execution.Node.{BaseModule}
use adapt.Execution.Pipeline.{
  given_names, is_enabled, names_of, producers, lacks, any_lacking, all_known,
  resolve_enabled_modules,
}
use adapt.Execution.Pipeline.Producers.{produces, producers-produces}

any_of-false :
    (p : Text → Bool) (x : Text) (xs : List Text)
    → any_of p xs ≡ false
    → mem x xs ≡ true
    → p x ≡ false
any_of-false p x [] h m = absurd (ground arith)
any_of-false p x (y ∷ xs) h m = elim (Bool-cases (x == y)) [
  | inl here ↦ ap p ((text_beq_iff x y).0 here) ∙ ground arith
  | inr later ↦ any_of-false p x xs (ground arith) (ground arith)
]

all_known→mem :
    (all names : List Text) (n : Text)
    → all_known all names ≡ true
    → mem n names ≡ true
    → mem n all ≡ true
all_known→mem all [] n k m = absurd (ground arith)
all_known→mem all (y ∷ names) n k m = elim (Bool-cases (n == y)) [
  | inl here ↦ ap (λ x. mem x all) ((text_beq_iff n y).0 here) ∙ ground arith
  | inr later ↦ all_known→mem all names n (ground arith) (ground arith)
]

accepted {ℓ} :
    {A : Type ℓ} (known lacking : Bool) (a b : A)
    → (if known then (if lacking then raise value_error else ok a) else raise value_error) ≡ ok b
    → (b ≡ a) × (known ≡ true) × (lacking ≡ false)
accepted true true a b h = absurd (ground arith)
accepted true false a b h = (ground (arith, h), refl, refl)
accepted false lacking a b h = absurd (ground arith)

module _ {V W : Type 0} where
  -- A module with an enabled name is kept, with what it produces.
  keep-produces :
      (enabled : Text → Bool) (input src : Text) (ms : List (BaseModule V W))
      → enabled src ≡ true
      → any_of (λ m. m.name == src && produces input m) ms ≡ true
      → any_of (produces input) (keep (λ m. enabled m.name) ms) ≡ true
  keep-produces enabled input src [] e h = absurd (ground arith)
  keep-produces enabled input src (m ∷ ms) e h = elim (Bool-cases (m.name == src)) [
    | inl here ↦
        rw (ap enabled ((text_beq_iff m.name src).0 here) ∙ e)
          (ground (arith, h, keep-produces enabled input src ms e))
    | inr other ↦
        let later = keep-produces enabled input src ms e (ground (arith, h, other)) in
        elim (Bool-cases (enabled m.name)) [
          | inl kept ↦ rw kept (ground (arith, later))
          | inr dropped ↦ rw dropped later
        ]
  ]

  mem-names_of-keep :
      (enabled : Text → Bool) (n : Text) (ms : List (BaseModule V W))
      → mem n (names_of (keep (λ m. enabled m.name) ms)) ≡ (mem n (names_of ms) && enabled n)
  mem-names_of-keep enabled n [] = refl
  mem-names_of-keep enabled n (m ∷ ms) =
      let rest = mem-names_of-keep enabled n ms in
      elim (Bool-cases (n == m.name)) [
        | inl here ↦
            let same = (text_beq_iff n m.name).0 here in
            elim (Bool-cases (enabled m.name)) [
              | inl kept ↦ rw kept (ground (arith, here, ap enabled same ∙ kept))
              | inr dropped ↦ rw dropped (rest ∙ ground (arith, here, ap enabled same ∙ dropped))
            ]
        | inr other ↦ elim (Bool-cases (enabled m.name)) [
          | inl kept ↦ rw kept (ground (arith, other, rest))
          | inr dropped ↦ rw dropped (rest ∙ ground (arith, other))
        ]
      ]

  -- Each input of the module that one of all modules produces is produced by one of the selected.
  abbrev pub IsSupplied : (all selected : List (BaseModule V W)) → BaseModule V W → Type 0
  IsSupplied all selected m =
      (input : Text)
      → mem input m.inputs ≡ true
      → any_of (produces input) all ≡ true
      → any_of (produces input) selected ≡ true

  keep-IsSupplied :
      (enabled : Text → Bool) (all ms : List (BaseModule V W))
      → any_lacking enabled (producers all []) ms ≡ false
      → All (IsSupplied all (keep (λ m. enabled m.name) all)) (keep (λ m. enabled m.name) ms)
  keep-IsSupplied enabled all [] h = tt
  keep-IsSupplied enabled all (m ∷ ms) h =
      let rest = keep-IsSupplied enabled all ms (ground (arith, h)) in
      elim (Bool-cases (enabled m.name)) [
        | inr dropped ↦ rw dropped rest
        | inl kept ↦ rw kept (supplied (ground (arith, h, kept)), rest)
      ]
    where
      supplied :
          any_of (lacks enabled (producers all [])) m.inputs ≡ false
          → IsSupplied all (keep (λ n. enabled n.name) all) m
      supplied fine input needed made =
          let (src, e, found) = producers-produces input all made in
          let there = any_of-false (lacks enabled (producers all [])) input m.inputs fine needed in
          keep-produces enabled input src all (present src e there) found
        where
          present :
              (src : Text)
              → get input (producers all []) ≡ some src
              → lacks enabled (producers all []) input ≡ false
              → enabled src ≡ true
          present src e there = ground (arith, e, there)

  -- What a call that returns has found out.
  resolved :
      (all : List (BaseModule V W)) (modules only exclude : Option (List Text))
      (selected : List (BaseModule V W))
      → resolve_enabled_modules all modules only exclude ≡ ok selected
      → (selected
          ≡ keep
              (λ m.
                is_enabled (names_of all) modules (given_names only) (given_names exclude) m.name)
              all)
        × (all_known (names_of all) (given_names only) ≡ true)
        × (any_lacking
              (is_enabled (names_of all) modules (given_names only) (given_names exclude))
              (producers all [])
              all
            ≡ false)
  unfolding resolve_enabled_modules
  resolved all modules only exclude selected h =
      let names = names_of all in
      let (same, known, none_lacks) =
        accepted
          (all_known names (given_names modules)
            && (all_known names (given_names only) && all_known names (given_names exclude)))
          _ _ selected h in
      (same, ground (arith, known), none_lacks)

  -- If resolve_enabled_modules returns, every input of a selected module that some registered module
  -- produces is produced by a selected one.
  pub resolve_enabled_modules-IsSupplied :
      (all : List (BaseModule V W)) (modules only exclude : Option (List Text))
      (selected : List (BaseModule V W))
      → resolve_enabled_modules all modules only exclude ≡ ok selected
      → All (IsSupplied all selected) selected
  resolve_enabled_modules-IsSupplied all modules only exclude selected h =
      let (same, known, none_lacks) = resolved all modules only exclude selected h in
      subst (λ ms. All (IsSupplied all ms) ms) (sym same)
        (keep-IsSupplied
          (is_enabled (names_of all) modules (given_names only) (given_names exclude)) all all
          none_lacks)

  -- If resolve_enabled_modules returns and --only names a module, then a name is that of a selected
  -- module exactly if --only has it, whatever the allowlist and --not say.
  pub resolve_enabled_modules-only :
      (all : List (BaseModule V W)) (modules : Option (List Text)) (o : Text) (only : List Text)
      (exclude : Option (List Text)) (selected : List (BaseModule V W)) (n : Text)
      → resolve_enabled_modules all modules (some (o ∷ only)) exclude ≡ ok selected
      → mem n (names_of selected) ≡ mem n (o ∷ only)
  resolve_enabled_modules-only all modules o only exclude selected n h =
      let (same, known, none_lacks) = resolved all modules (some (o ∷ only)) exclude selected h in
      ap (λ ms. mem n (names_of ms)) same
      ∙ mem-names_of-keep (λ name. mem name (o ∷ only)) n all
      ∙ named (all_known→mem (names_of all) (o ∷ only) n known)
    where
      named :
          (mem n (o ∷ only) ≡ true → mem n (names_of all) ≡ true)
          → (mem n (names_of all) && mem n (o ∷ only)) ≡ mem n (o ∷ only)
      named f = elim (Bool-cases (mem n (o ∷ only))) [
        | inl here ↦ ground (arith, here, f here)
        | inr other ↦ ground (arith, other)
      ]
