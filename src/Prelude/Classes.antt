-- ===== src/Prelude/Classes.antt =====
-- Equality tests as an interface, and strings as their code points with Python's order on them.
use Prim.Native.Nat.{ℕ}
use Prim.Native.Char.{code}
use Prim.Native.String.{String}
use mathlib.Core.Path.{◌≡◌, refl}
use mathlib.Core.Logic.{◌↔◌}
use mathlib.Core.Bool.{Bool, true, false, ◌&&◌, ◌||◌}
use mathlib.Core.List.{List, [], ◌∷◌}
use native.Mathlib.Omega.{arith}
use adapt.Prelude.Tests.{ltb, nat_beq, nat_beq_iff}

-- Python's `==` on the type K, which decides equality.
pub record Eq {ℓ} (K : Type ℓ) : Type ℓ where
  pub beq : K → K → Bool
  pub beq_iff : (x y : K) → (beq x y ≡ true) ↔ (x ≡ y)

module _ {ℓ} {K : Type ℓ} ⦃eq : Eq K⦄ where
  infix 50 ◌==◌
  abbrev pub ◌==◌ : K → K → Bool
  x == y = eq.beq x y

instance abbrev pub nat_eq : Eq ℕ
nat_eq = record { beq = nat_beq; beq_iff = nat_beq_iff }

-- A Python string: its code points.
abbrev pub Text : Type 0
Text = List ℕ

-- The code points of a literal.
abbrev pub codes : String → Text
codes String.[] = []
codes (String.◌∷◌ c s) = code c ∷ codes s

abbrev pub text_beq : Text → Text → Bool
text_beq [] [] = true
text_beq [] (b ∷ bs) = false
text_beq (a ∷ as') [] = false
text_beq (a ∷ as') (b ∷ bs) = nat_beq a b && text_beq as' bs

pub text_beq_iff : (s t : Text) → (text_beq s t ≡ true) ↔ (s ≡ t)
text_beq_iff [] [] = ground arith
text_beq_iff [] (b ∷ bs) = ground arith
text_beq_iff (a ∷ as') [] = ground arith
text_beq_iff (a ∷ as') (b ∷ bs) = ground (arith, text_beq_iff as' bs)

pub text_beq_sym : (s t : Text) → text_beq s t ≡ text_beq t s
text_beq_sym [] [] = refl
text_beq_sym [] (b ∷ bs) = refl
text_beq_sym (a ∷ as') [] = refl
text_beq_sym (a ∷ as') (b ∷ bs) = ground (arith, text_beq_sym as' bs)

instance abbrev pub text_eq : Eq Text
text_eq = record { beq = text_beq; beq_iff = text_beq_iff }

-- Python's `s < t` on strings: lexicographic in the code points.
abbrev pub text_ltb : Text → Text → Bool
text_ltb [] [] = false
text_ltb [] (b ∷ bs) = true
text_ltb (a ∷ as') [] = false
text_ltb (a ∷ as') (b ∷ bs) = ltb a b || (nat_beq a b && text_ltb as' bs)

pub text_ltb_irrefl : (s : Text) → text_ltb s s ≡ false
text_ltb_irrefl [] = refl
text_ltb_irrefl (a ∷ s) = ground (arith, text_ltb_irrefl s)

pub text_ltb_trans :
    (s t u : Text) → text_ltb s t ≡ true → text_ltb t u ≡ true → text_ltb s u ≡ true
text_ltb_trans [] [] u p q = q
text_ltb_trans [] (b ∷ t) [] p q = q
text_ltb_trans [] (b ∷ t) (c ∷ u) p q = refl
text_ltb_trans (a ∷ s) [] u p q = ground arith
text_ltb_trans (a ∷ s) (b ∷ t) [] p q = ground arith
text_ltb_trans (a ∷ s) (b ∷ t) (c ∷ u) p q = ground (arith, text_ltb_trans s t u)

pub text_ltb_total : (s t : Text) → text_ltb s t ≡ false → text_ltb t s ≡ false → s ≡ t
text_ltb_total [] [] p q = refl
text_ltb_total [] (b ∷ t) p q = ground arith
text_ltb_total (a ∷ s) [] p q = ground arith
text_ltb_total (a ∷ s) (b ∷ t) p q = ground (arith, text_ltb_total s t)
