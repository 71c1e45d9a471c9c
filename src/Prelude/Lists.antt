-- ===== src/Prelude/Lists.antt =====
-- Lists measured and indexed by native numbers, Boolean filters and membership.
use Prim.Native.Nat.{ℕ, zero, suc, ◌+◌, ◌≤◌, ◌<◌}
use mathlib.Core.Path.{◌≡◌, refl, ap, ◌∙◌}
use mathlib.Core.Logic.{inl, inr}
use mathlib.Core.Bool.{Bool, true, false, ◌&&◌, ◌||◌}
use mathlib.Core.List.{List, [], ◌∷◌, ◌++◌, map}
use mathlib.Core.Option.{Option, none, some}
use native.Mathlib.Omega.{arith}
use adapt.Prelude.Tests.{if◌then◌else◌, Bool-cases}
use adapt.Prelude.Classes.{Eq, ◌==◌}

module _ {ℓ} {A : Type ℓ} where
  abbrev pub length : List A → ℕ
  length [] = 0
  length (x ∷ xs) = suc (length xs)

  abbrev pub get_elem? : List A → ℕ → Option A
  get_elem? [] i = none
  get_elem? (x ∷ xs) zero = some x
  get_elem? (x ∷ xs) (suc i) = get_elem? xs i

  -- xs[:n]
  abbrev pub take : ℕ → List A → List A
  take zero xs = []
  take (suc n) [] = []
  take (suc n) (x ∷ xs) = x ∷ take n xs

  pub length-append : (xs ys : List A) → length (xs ++ ys) ≡ length xs + length ys
  length-append [] ys = omega arith
  length-append (x ∷ xs) ys = omega (arith, length-append xs ys)

  pub get_elem?-append_last : (xs : List A) (y : A) → get_elem? (xs ++ y ∷ []) (length xs) ≡ some y
  get_elem?-append_last [] y = refl
  get_elem?-append_last (x ∷ xs) y = get_elem?-append_last xs y

  pub get_elem?-append_left :
      (xs ys : List A) (i : ℕ) → i < length xs → get_elem? (xs ++ ys) i ≡ get_elem? xs i
  get_elem?-append_left [] ys i h = elim h [ ]
  get_elem?-append_left (x ∷ xs) ys zero h = refl
  get_elem?-append_left (x ∷ xs) ys (suc i) h = get_elem?-append_left xs ys i (omega arith)

  -- [x for x in xs if p(x)]
  abbrev pub keep : (A → Bool) → List A → List A
  keep p [] = []
  keep p (x ∷ xs) = let rest = keep p xs in if p x then x ∷ rest else rest

  -- all(p(x) for x in xs)
  abbrev pub all_of : (A → Bool) → List A → Bool
  all_of p [] = true
  all_of p (x ∷ xs) = p x && all_of p xs

  -- any(p(x) for x in xs)
  abbrev pub any_of : (A → Bool) → List A → Bool
  any_of p [] = false
  any_of p (x ∷ xs) = p x || any_of p xs

  pub length-keep-le : (p : A → Bool) (xs : List A) → length (keep p xs) ≤ length xs
  length-keep-le p [] = omega arith
  length-keep-le p (x ∷ xs) = ground (arith, length-keep-le p xs)

pub length-map {ℓ κ} :
    {A : Type ℓ} {B : Type κ} (f : A → B) (xs : List A) → length (map f xs) ≡ length xs
length-map f [] = refl
length-map f (x ∷ xs) = ap suc (length-map f xs)

-- Every element satisfies P.
abbrev pub All {ℓ κ} : {A : Type ℓ} → (A → Type κ) → List A → Type κ
All P [] = Unit
All P (x ∷ xs) = P x × All P xs

module _ {ℓ κ} {A : Type ℓ} (P : A → Type κ) where
  pub All-append : (xs ys : List A) → All P xs → All P ys → All P (xs ++ ys)
  All-append [] ys hx hy = hy
  All-append (x ∷ xs) ys hx hy = (hx.0, All-append xs ys hx.1 hy)

  pub All-keep : (p : A → Bool) (xs : List A) → All P xs → All P (keep p xs)
  All-keep p [] h = tt
  All-keep p (x ∷ xs) (h, hs) =
      elim (p x) as (λ b. All P (if b then x ∷ keep p xs else keep p xs)) [
        | true ↦ (h, All-keep p xs hs)
        | false ↦ All-keep p xs hs
      ]

pub All-map {ℓ κ μ} :
    {A : Type ℓ} {P : A → Type κ} {Q : A → Type μ} (xs : List A)
    → ((x : A) → P x → Q x)
    → All P xs
    → All Q xs
All-map [] f h = tt
All-map (x ∷ xs) f (h, hs) = (f x h, All-map xs f hs)

module _ {ℓ} {A : Type ℓ} ⦃e : Eq A⦄ where
  -- x in xs
  abbrev pub mem : A → List A → Bool
  mem x [] = false
  mem x (y ∷ ys) = x == y || mem x ys

  pub mem-append : (x : A) (xs ys : List A) → mem x (xs ++ ys) ≡ (mem x xs || mem x ys)
  mem-append x [] ys = refl
  mem-append x (y ∷ xs) ys = ground (arith, mem-append x xs ys)

  pub beq_refl : (x : A) → (x == x) ≡ true
  beq_refl x = (e.beq_iff x x).1 refl

  pub mem-keep : (p : A → Bool) (x : A) (xs : List A) → mem x (keep p xs) ≡ (mem x xs && p x)
  mem-keep p x [] = refl
  mem-keep p x (y ∷ ys) = elim (Bool-cases (x == y)) [
    | inl same ↦ rw ((e.beq_iff x y).0 same) (ground (arith, mem-keep p y ys, beq_refl y))
    | inr other ↦ ground (arith, mem-keep p x ys)
  ]

module _ {ℓ} {A : Type ℓ} where
  -- sum(1 for x in xs if p(x))
  abbrev pub count_if : (A → Bool) → List A → ℕ
  count_if p [] = 0
  count_if p (x ∷ xs) = (if p x then 1 else 0) + count_if p xs

  pub count_if-append :
      (p : A → Bool) (xs ys : List A) → count_if p (xs ++ ys) ≡ count_if p xs + count_if p ys
  count_if-append p [] ys = omega arith
  count_if-append p (x ∷ xs) ys = omega (arith, count_if-append p xs ys)

  pub count_if-keep-le : (p q : A → Bool) (xs : List A) → count_if p (keep q xs) ≤ count_if p xs
  count_if-keep-le p q [] = omega arith
  count_if-keep-le p q (x ∷ xs) = ground (arith, count_if-keep-le p q xs)

  abbrev insert_by : (A → A → Bool) → A → List A → List A
  insert_by lt x [] = x ∷ []
  insert_by lt x (y ∷ ys) = if lt y x then y ∷ insert_by lt x ys else x ∷ y ∷ ys

  -- sorted(xs), with the element order as a test
  abbrev pub sorted_by : (A → A → Bool) → List A → List A
  sorted_by lt [] = []
  sorted_by lt (x ∷ xs) = insert_by lt x (sorted_by lt xs)

  count_if-insert_by :
      (lt : A → A → Bool) (p : A → Bool) (x : A) (xs : List A)
      → count_if p (insert_by lt x xs) ≡ (if p x then 1 else 0) + count_if p xs
  count_if-insert_by lt p x [] = refl
  count_if-insert_by lt p x (y ∷ ys) = ground (arith, count_if-insert_by lt p x ys)

  -- Sorting keeps how often each kind of element occurs.
  pub count_if-sorted_by :
      (lt : A → A → Bool) (p : A → Bool) (xs : List A)
      → count_if p (sorted_by lt xs) ≡ count_if p xs
  count_if-sorted_by lt p [] = refl
  count_if-sorted_by lt p (x ∷ xs) =
      omega (arith, count_if-insert_by lt p x (sorted_by lt xs), count_if-sorted_by lt p xs)

  pub all_of-sorted_by :
      (lt : A → A → Bool) (p : A → Bool) (xs : List A) → all_of p (sorted_by lt xs) ≡ all_of p xs
  all_of-sorted_by lt p [] = refl
  all_of-sorted_by lt p (x ∷ xs) =
      all_of-insert_by (sorted_by lt xs) ∙ ap (λ b. p x && b) (all_of-sorted_by lt p xs)
    where
      all_of-insert_by : (ys : List A) → all_of p (insert_by lt x ys) ≡ (p x && all_of p ys)
      all_of-insert_by [] = refl
      all_of-insert_by (y ∷ ys) = ground (arith, all_of-insert_by ys)

module _ {ℓ} {A : Type ℓ} ⦃e : Eq A⦄ where
  -- set(xs), in the order of first occurrence from the end
  abbrev pub to_set : List A → List A
  to_set [] = []
  to_set (x ∷ xs) = let rest = to_set xs in if mem x rest then rest else x ∷ rest

  pub mem-to_set : (x : A) (xs : List A) → mem x (to_set xs) ≡ mem x xs
  mem-to_set x [] = refl
  mem-to_set x (y ∷ ys) = elim (Bool-cases (x == y)) [
    | inl p ↦ rw ((e.beq_iff x y).0 p) (ground (arith, beq_refl y, mem-to_set y ys))
    | inr p ↦ ground (arith, mem-to_set x ys)
  ]

  pub length-keep-lt :
      (p : A → Bool) (x : A) (xs : List A)
      → mem x xs ≡ true
      → p x ≡ false
      → length (keep p xs) < length xs
  length-keep-lt p x [] m h = ground arith
  length-keep-lt p x (y ∷ ys) m h = elim (Bool-cases (x == y)) [
    | inl q ↦ ground (arith, (e.beq_iff x y).0 q, length-keep-le p ys)
    | inr q ↦ ground (arith, length-keep-lt p x ys)
  ]

  pub mem-sorted_by : (lt : A → A → Bool) (x : A) (xs : List A) → mem x (sorted_by lt xs) ≡ mem x xs
  mem-sorted_by lt x [] = refl
  mem-sorted_by lt x (y ∷ ys) =
      mem-insert_by (sorted_by lt ys) ∙ ap (λ b. x == y || b) (mem-sorted_by lt x ys)
    where
      mem-insert_by : (zs : List A) → mem x (insert_by lt y zs) ≡ (x == y || mem x zs)
      mem-insert_by [] = refl
      mem-insert_by (z ∷ zs) = ground (arith, mem-insert_by zs)
