-- ===== src/Exec.antt =====
-- Python statements that change an object and may raise: a state monad that keeps the state as it
-- is when an exception leaves the call.
use adapt.Prelude.{
  ◌≡◌, refl, ◌⊎◌, inl, inr, Bool, true, false, Option, none, some, List, [], ◌∷◌, ◌++◌, append-nil,
  append_assoc, All, arith, if◌then◌else◌,
}

-- The classes of the exceptions that the modelled code raises, without their messages.
pub data Error : Type 0 where
  value_error key_error index_error runtime_error store_error contract_violation : Error
  integrity_error type_error zero_division : Error

pub data Result {ℓ} (A : Type ℓ) : Type ℓ where
  ok : A → Result A
  raise : Error → Result A

pub Result-cases {ℓ} :
    {A : Type ℓ} (r : Result A) → ((a : A) × (r ≡ ok a)) ⊎ ((e : Error) × (r ≡ raise e))
Result-cases (ok a) = inl (a, refl)
Result-cases (raise e) = inr (e, refl)

abbrev pub Exec {ℓ κ} : Type ℓ → Type κ → Type (ℓ ⊔ κ)
Exec S A = S → Result A × S

module _ {ℓ κ} {S : Type ℓ} {A : Type κ} where
  abbrev pub pure : A → Exec S A
  pure a s = (ok a, s)

  abbrev pub throw : Error → Exec S A
  throw e s = (raise e, s)

  abbrev pub gets : (S → A) → Exec S A
  gets f s = (ok (f s), s)

  abbrev pub lift : Result A → Exec S A
  lift r s = (r, s)

  -- A value that is there, or the exception for its absence.
  abbrev pub need : Error → Option A → Exec S A
  need e none = throw e
  need e (some a) = pure a

-- `if not test: raise e`
abbrev pub require {ℓ} : {S : Type ℓ} → Bool → Error → Exec S (Unit {0})
require true e = pure tt
require false e = throw e

abbrev pub modify {ℓ} : {S : Type ℓ} → (S → S) → Exec S (Unit {0})
modify f s = (ok tt, f s)

abbrev pub and_then {ℓ κ μ} :
    {S : Type ℓ} {A : Type κ} {B : Type μ} → Result A → S → (A → Exec S B) → Result B × S
and_then (ok a) s f = f a s
and_then (raise e) s f = (raise e, s)

infixl 5 ◌>>=◌ ◌>>◌
abbrev pub ◌>>=◌ {ℓ κ μ} :
    {S : Type ℓ} {A : Type κ} {B : Type μ} → Exec S A → (A → Exec S B) → Exec S B
◌>>=◌ m f s = let (r, s') = m s in and_then r s' f

abbrev pub ◌>>◌ {ℓ κ} : {S : Type ℓ} {B : Type κ} → Exec S (Unit {0}) → Exec S B → Exec S B
m >> k = m >>= λ _. k

-- [f(x) for x in xs], with the effects of each call in turn.
unfoldable pub for_each {ℓ κ μ} :
    {S : Type ℓ} {A : Type κ} {B : Type μ} → (A → Exec S B) → List A → Exec S (List B)
for_each f [] = pure []
for_each f (x ∷ xs) = do y ← f x; ys ← for_each f xs; pure (y ∷ ys)

-- The call returns, and its result and the state after it satisfy P.
abbrev pub Ensures {ℓ κ μ} :
    {S : Type ℓ} {A : Type κ} → (A → S → Type μ) → Result A × S → Type (ℓ ⊔ κ ⊔ μ)
Ensures {S} {A} P out = (a : A) × (s : S) × (out ≡ (ok a, s)) × P a s

module _ {ℓ κ μ ν ξ} {S : Type ℓ} {A : Type κ} {B : Type μ} where
  pub >>=-Ensures :
      (Q : A → S → Type ν) (P : B → S → Type ξ) (m : Exec S A) (f : A → Exec S B) (s : S)
      → Ensures Q (m s)
      → ((a : A) (s' : S) → Q a s' → Ensures P (f a s'))
      → Ensures P ((m >>= f) s)
  >>=-Ensures Q P m f s (a, s', e, q) h = rw e (h a s' q)

  -- The loop rule: an invariant over the state and the results so far.
  pub for_each-Ensures :
      (Inv : List B → S → Type ν) (Pre : A → Type ξ) (f : A → Exec S B)
      → ((x : A) (ys : List B) (s : S)
          → Pre x
          → Inv ys s
          → Ensures (λ y s'. Inv (ys ++ y ∷ []) s') (f x s))
      → (xs : List A) (done : List B) (s : S) → All Pre xs
      → Inv done s
      → Ensures (λ ys s'. Inv (done ++ ys) s') (for_each f xs s)
  unfolding for_each
  for_each-Ensures Inv Pre f step [] done s pre inv = ([], s, refl, rw append-nil inv)
  for_each-Ensures Inv Pre f step (x ∷ xs) done s (p, pre) inv =
      let (y, s', e, inv') = step x done s p inv in
      let (ys, s'', e', inv'') = for_each-Ensures Inv Pre f step xs (done ++ y ∷ []) s' pre inv' in
      (y ∷ ys, s'', rw (e, e'), rw append_assoc at inv'')

-- A block that returns has a first statement that returns, and goes on from there.
pub >>=-returns {ℓ κ μ} :
    {S : Type ℓ} {A : Type κ} {B : Type μ} (m : Exec S A) (f : A → Exec S B) (s : S) (b : B)
    → ((m >>= f) s).0 ≡ ok b
    → (a : A) × ((m s).0 ≡ ok a) × ((f a (m s).1).0 ≡ ok b) × ((m >>= f) s ≡ f a (m s).1)
>>=-returns m f s b h = elim (Result-cases (m s).0) [
  | inl (a, e) ↦ (a, e, rw e at h, rw e refl)
  | inr (x, e) ↦ absurd (ground (arith, e))
]

-- A last `return` leaves the state as it is.
pub >>=-pure {ℓ κ μ} :
    {S : Type ℓ} {A : Type κ} {B : Type μ} (m : Exec S A) (g : A → B) (s : S)
    → ((m >>= λ a. pure (g a)) s).1 ≡ (m s).1
>>=-pure m g s = elim (Result-cases (m s).0) [ inl (a, e) ↦ rw e refl | inr (x, e) ↦ rw e refl ]

pub >>-pure {ℓ κ} :
    {S : Type ℓ} {A : Type κ} (m : Exec S (Unit {0})) (a : A) (s : S)
    → ((m >> pure a) s).1 ≡ (m s).1
>>-pure m a s = >>=-pure m (λ _. a) s

-- The statement leaves P true, whether it returns or raises.
pub record Keeps {ℓ κ μ} {S : Type ℓ} {A : Type κ} (P : S → Type μ) (m : Exec S A)
    : Type (ℓ ⊔ μ) where
  pub at : (s : S) → P s → P (m s).1

pub Keeps->>= {ℓ κ μ ν} :
    {S : Type ℓ} {A : Type κ} {B : Type μ} {P : S → Type ν} {m : Exec S A} {f : A → Exec S B}
    → Keeps P m
    → ((a : A) → Keeps P (f a))
    → Keeps P (m >>= f)
Keeps->>= {P} {m} {f} first rest = record {
  at = λ s p. elim (Result-cases (m s).0) [
    | inl (a, e) ↦ rw e ((rest a).at (m s).1 (first.at s p))
    | inr (x, e) ↦ rw e (first.at s p)
  ];
}

pub Keeps-if {ℓ κ μ} :
    {S : Type ℓ} {A : Type κ} {P : S → Type μ} {m n : Exec S A} (b : Bool)
    → Keeps P m
    → Keeps P n
    → Keeps P (if b then m else n)
Keeps-if true first other = first
Keeps-if false first other = other

pub Keeps-need {ℓ κ μ} :
    {S : Type ℓ} {A : Type κ} {P : S → Type μ} (e : Error) (value : Option A)
    → Keeps P (need {S = S} e value)
Keeps-need e none = record { at = λ s h. h }
Keeps-need e (some a) = record { at = λ s h. h }
