-- ===== src/Floats.antt =====
-- Python's floats, numpy's among them: a type with the operations that the modelled code uses.
use adapt.Prelude.{ℕ, ◌≡◌, Bool, true, false, ◌||◌, if◌then◌else◌}
use adapt.Exec.{Result, ok, raise, zero_division}

pub record FloatOps (F : Type 0) : Type 0 where
  -- float(n) of an int
  pub of_nat : ℕ → F
  pub plus : F → F → F
  pub minus : F → F → F
  pub times : F → F → F
  pub over : F → F → F
  pub neg : F → F
  -- a < b, a <= b, a == b
  pub less : F → F → Bool
  pub less_eq : F → F → Bool
  pub same : F → F → Bool
  pub is_nan : F → Bool
  pub fabs : F → F
  pub sqrt : F → F
  pub sin : F → F
  pub cos : F → F
  pub hypot : F → F → F
  pub atan2 : F → F → F
  pub degrees : F → F
  -- int(math.ceil(a)), of a value that is not negative
  pub ceil : F → ℕ
  pub radians : F → F
  pub asin : F → F

-- a / b, which raises ZeroDivisionError; `over` is its value where it does not.
abbrev pub divide : {F : Type 0} → FloatOps F → F → F → Result F
divide fl a b = if fl.same b (fl.of_nat 0) then raise zero_division else ok (fl.over a b)

-- The order of IEEE 754 comparisons, as far as the proofs use it. Every comparison with a NaN is
-- false, so most of the laws hold of all floats.
pub record IsOrdered {F : Type 0} (fl : FloatOps F) : Type 0 where
  pub less_irrefl : (a : F) → fl.less a a ≡ false
  pub less_trans : (a b c : F) → fl.less a b ≡ true → fl.less b c ≡ true → fl.less a c ≡ true
  pub same_sym : (a b : F) → fl.same a b ≡ fl.same b a
  pub same_trans : (a b c : F) → fl.same a b ≡ true → fl.same b c ≡ true → fl.same a c ≡ true
  pub less-same : (a b c : F) → fl.less a b ≡ true → fl.same b c ≡ true → fl.less a c ≡ true
  pub same-less : (a b c : F) → fl.same a b ≡ true → fl.less b c ≡ true → fl.less a c ≡ true
  -- Negation reverses the order.
  pub less-neg : (a b : F) → fl.less (fl.neg a) (fl.neg b) ≡ fl.less b a
  pub same-neg : (a b : F) → fl.same (fl.neg a) (fl.neg b) ≡ fl.same b a
  -- Of two floats that are no NaN, what is not below is equal or above.
  pub less_total :
      (a b : F)
      → fl.is_nan a ≡ false
      → fl.is_nan b ≡ false
      → (fl.less a b || fl.same a b || fl.less b a) ≡ true
