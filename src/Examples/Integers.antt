-- ===== src/Examples/Integers.antt =====
-- Integers in the place of floats: an order that meets the laws of the comparisons.
use adapt.Prelude.{
  ℕ, suc, ◌+◌, ◌-◌, ◌*◌, ◌/◌, ◌≡◌, Bool, true, false, ◌||◌, arith, ltb, leb, nat_beq, if◌then◌else◌,
}
use adapt.Floats.{FloatOps, IsOrdered}

-- `negsuc n` is -(n + 1).
pub data ℤ : Type 0 where
  pos : ℕ → ℤ
  negsuc : ℕ → ℤ

abbrev pos_part : ℤ → ℕ
pos_part (pos n) = n
pos_part (negsuc n) = 0

abbrev neg_part : ℤ → ℕ
neg_part (pos n) = 0
neg_part (negsuc n) = suc n

abbrev sub_ℕ : ℕ → ℕ → ℤ
sub_ℕ a b = if leb b a then pos (a - b) else negsuc (b - a - 1)

abbrev plus : ℤ → ℤ → ℤ
plus a b = sub_ℕ (pos_part a + pos_part b) (neg_part a + neg_part b)

abbrev neg : ℤ → ℤ
neg a = sub_ℕ (neg_part a) (pos_part a)

abbrev times : ℤ → ℤ → ℤ
times a b =
    sub_ℕ (pos_part a * pos_part b + neg_part a * neg_part b)
      (pos_part a * neg_part b + neg_part a * pos_part b)

abbrev less : ℤ → ℤ → Bool
less a b = ltb (pos_part a + neg_part b) (pos_part b + neg_part a)

abbrev less_eq : ℤ → ℤ → Bool
less_eq a b = leb (pos_part a + neg_part b) (pos_part b + neg_part a)

abbrev same : ℤ → ℤ → Bool
same a b = nat_beq (pos_part a + neg_part b) (pos_part b + neg_part a)

-- Quotients are taken between the positive parts; the trigonometry is left out.
abbrev pub integers : FloatOps ℤ
integers = record {
  of_nat = pos;
  plus = plus;
  minus = λ a b. plus a (neg b);
  times = times;
  over = λ a b. pos (pos_part a / pos_part b);
  neg = neg;
  less = less;
  less_eq = less_eq;
  same = same;
  is_nan = λ a. false;
  fabs = λ a. pos (pos_part a + neg_part a);
  sqrt = λ a. a;
  sin = λ a. pos 0;
  cos = λ a. pos 1;
  hypot = λ a b. pos (pos_part a + neg_part a + (pos_part b + neg_part b));
  atan2 = λ a b. pos 0;
  degrees = λ a. a;
  ceil = pos_part;
  radians = λ a. a;
  asin = λ a. a;
}

less_irrefl : (a : ℤ) → less a a ≡ false
less_irrefl a = ground arith

less_trans : (a b c : ℤ) → less a b ≡ true → less b c ≡ true → less a c ≡ true
less_trans a b c p q = ground arith

same_sym : (a b : ℤ) → same a b ≡ same b a
same_sym a b = ground arith

same_trans : (a b c : ℤ) → same a b ≡ true → same b c ≡ true → same a c ≡ true
same_trans a b c p q = ground arith

less-same : (a b c : ℤ) → less a b ≡ true → same b c ≡ true → less a c ≡ true
less-same a b c p q = ground arith

same-less : (a b c : ℤ) → same a b ≡ true → less b c ≡ true → less a c ≡ true
same-less a b c p q = ground arith

less-neg : (a b : ℤ) → less (neg a) (neg b) ≡ less b a
less-neg a b = ground arith

same-neg : (a b : ℤ) → same (neg a) (neg b) ≡ same b a
same-neg a b = ground arith

less_total : (a b : ℤ) → (less a b || same a b || less b a) ≡ true
less_total a b = ground arith

pub integers-IsOrdered : IsOrdered integers
integers-IsOrdered = record {
  less_irrefl = less_irrefl;
  less_trans = less_trans;
  same_sym = same_sym;
  same_trans = same_trans;
  less-same = less-same;
  same-less = same-less;
  less-neg = less-neg;
  same-neg = same-neg;
  less_total = λ a b p q. less_total a b;
}
