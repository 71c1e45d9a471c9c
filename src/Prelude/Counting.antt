-- ===== src/Prelude/Counting.antt =====
-- Lists without repetitions: the pigeonhole principle.
use Prim.Native.Nat.{suc, ◌≤◌}
use mathlib.Core.Path.{◌≡◌, refl}
use mathlib.Core.Logic.{inl, inr}
use mathlib.Core.Bool.{Bool, true, false, not, ◌&&◌, ◌||◌}
use mathlib.Core.List.{List, [], ◌∷◌, ◌++◌}
use native.Mathlib.Omega.{arith}
use adapt.Prelude.Tests.{if◌then◌else◌, Bool-cases}
use adapt.Prelude.Classes.{Eq, ◌==◌}
use adapt.Prelude.Lists.{length, mem, all_of, beq_refl, mem-append}

module _ {ℓ} {A : Type ℓ} ⦃e : Eq A⦄ where
  -- No element stands twice.
  abbrev pub distinct : List A → Bool
  distinct [] = true
  distinct (x ∷ xs) = not (mem x xs) && distinct xs

  -- Every element of the first list is one of the second.
  abbrev pub subset : List A → List A → Bool
  subset xs ys = all_of (λ x. mem x ys) xs

  pub subset→mem :
      (x : A) (xs ys : List A) → subset xs ys ≡ true → mem x xs ≡ true → mem x ys ≡ true
  subset→mem x [] ys h m = ground arith
  subset→mem x (z ∷ xs) ys h m = elim (Bool-cases (x == z)) [
    | inl same ↦ ground (arith, e.beq_iff x z)
    | inr other ↦ ground (arith, subset→mem x xs ys)
  ]

  erase : A → List A → List A
  erase x [] = []
  erase x (y ∷ ys) = let rest = erase x ys in if x == y then ys else y ∷ rest

  length-erase : (x : A) (ys : List A) → mem x ys ≡ true → suc (length (erase x ys)) ≡ length ys
  unfolding erase
  length-erase x [] h = ground arith
  length-erase x (y ∷ ys) h = ground (arith, length-erase x ys)

  mem-erase :
      (x z : A) (ys : List A) → mem z ys ≡ true → (z == x) ≡ false → mem z (erase x ys) ≡ true
  unfolding erase
  mem-erase x z [] h n = ground arith
  mem-erase x z (y ∷ ys) h n = ground (arith, mem-erase x z ys, e.beq_iff x y, e.beq_iff z y)

  mem-of-erase : (x z : A) (ys : List A) → mem z ys ≡ true → (z == x || mem z (erase x ys)) ≡ true
  mem-of-erase x z ys h = ground (arith, mem-erase x z ys h)

  subset-erase :
      (x : A) (xs ys : List A)
      → mem x xs ≡ false
      → subset xs ys ≡ true
      → subset xs (erase x ys) ≡ true
  subset-erase x [] ys n h = refl
  subset-erase x (z ∷ xs) ys n h =
      ground (arith, subset-erase x xs ys, mem-erase x z ys, e.beq_iff x z, e.beq_iff z x)

  all-mem :
      (f : A → Bool) (ys : List A) → ((z : A) → mem z ys ≡ true → f z ≡ true) → all_of f ys ≡ true
  all-mem f [] h = refl
  all-mem f (y ∷ ys) h = ground (arith, h y, beq_refl y, all-mem f ys (λ z m. h z (ground arith)))

  -- A list without repetitions inside a list that is no longer covers it.
  pub pigeonhole :
      (xs ys : List A)
      → distinct xs ≡ true
      → subset xs ys ≡ true
      → length ys ≤ length xs
      → subset ys xs ≡ true
  pigeonhole [] [] d s l = refl
  pigeonhole [] (y ∷ ys) d s l = absurd (omega arith)
  pigeonhole (x ∷ xs) ys d s l =
      all-mem (λ y. mem y (x ∷ xs)) ys
        λ z m.
          let covered =
            pigeonhole xs (erase x ys) (ground arith)
              (subset-erase x xs ys (ground arith) (ground arith))
              (omega (arith, length-erase x ys (ground arith))) in
          ground (arith, mem-of-erase x z ys m, subset→mem z (erase x ys) xs covered)

  -- Without repetitions, a part is no longer than the whole.
  pub length-subset-le :
      (xs ys : List A) → distinct xs ≡ true → subset xs ys ≡ true → length xs ≤ length ys
  length-subset-le [] ys d s = omega arith
  length-subset-le (x ∷ xs) ys d s = omega (
    arith,
    length-erase x ys (ground arith),
    length-subset-le xs (erase x ys) (ground arith)
        (subset-erase x xs ys (ground arith) (ground arith)),
  )

  pub distinct-snoc :
      (xs : List A) (x : A) → distinct (xs ++ x ∷ []) ≡ (distinct xs && not (mem x xs))
  distinct-snoc [] x = refl
  distinct-snoc (y ∷ ys) x =
      ground (arith, distinct-snoc ys x, mem-append y ys (x ∷ []), e.beq_iff x y, e.beq_iff y x)

  pub subset-snoc : (xs ys : List A) (x : A) → subset (xs ++ x ∷ []) ys ≡ (subset xs ys && mem x ys)
  subset-snoc [] ys x = ground arith
  subset-snoc (z ∷ xs) ys x = ground (arith, subset-snoc xs ys x)
