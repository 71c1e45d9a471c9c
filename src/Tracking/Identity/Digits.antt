-- ===== src/Tracking/Identity/Digits.antt =====
-- The digit loops of identity.py against reading the digits back.
use native.Mathlib.Nat.{div-add-mod', div-lt_self, pow-zero, pow-suc, div-lt_iff_lt-mul}
use adapt.Prelude.{
  ℕ, zero, suc, ◌+◌, ◌-◌, ◌*◌, ◌/◌, ◌%◌, ◌^◌, ◌≤◌, ◌<◌, ◌≡◌, refl, ap, ◌∙◌, false, [], ◌∷◌, ◌++◌,
  arith, Text, ltb, nat_beq, if◌then◌else◌, length, inl, inr, Bool-cases,
}
use adapt.Tracking.Identity.{base36_char, encode_loop, zeros}

-- The value of a character of BASE36_UPPER.
abbrev pub digit_value : ℕ → ℕ
digit_value c = if ltb c 58 then c - 48 else c - 55

-- int(text, base), from the value of the text read so far.
unfoldable pub decode_from : (base acc : ℕ) → Text → ℕ
decode_from base acc [] = acc
decode_from base acc (c ∷ cs) = decode_from base (acc * base + digit_value c) cs

digit_value-base36_char : (d : ℕ) → digit_value (base36_char d) ≡ d
digit_value-base36_char d = ground arith

pub div-lt : (value base : ℕ) → 1 < base → nat_beq value 0 ≡ false → value / base < value
div-lt value base b nz = div-lt_self (ground arith) b

pub decode-encode_loop :
    (fuel value : ℕ) (chars : Text) (base : ℕ)
    → 1 < base
    → value < fuel
    → decode_from base 0 (encode_loop base fuel value chars) ≡ decode_from base value chars
unfolding encode_loop decode_from
decode-encode_loop zero value chars base b h = absurd (omega arith)
decode-encode_loop (suc fuel) value chars base b h = elim (Bool-cases (nat_beq value 0)) [
  | inl z ↦ ground (arith, z)
  | inr nz ↦
      rw
        (
          nz,
          decode-encode_loop fuel (value / base) (base36_char (value % base) ∷ chars) base b
              (omega (arith, div-lt value base b nz)),
        )
        (ap (λ a. decode_from base a chars)
          (ap (λ d. value / base * base + d) (digit_value-base36_char (value % base))
            ∙ div-add-mod' value base))
]

pub decode-zeros : (n : ℕ) (cs : Text) → decode_from 36 0 (zeros n ++ cs) ≡ decode_from 36 0 cs
unfolding decode_from
decode-zeros zero cs = refl
decode-zeros (suc n) cs = decode-zeros n cs

-- Below base ^ width the loop writes at most `width` digits.
pub length-encode_loop-le :
    (width fuel value : ℕ) (chars : Text) (base : ℕ)
    → 1 < base
    → value < base ^ width
    → length (encode_loop base fuel value chars) ≤ width + length chars
unfolding encode_loop
length-encode_loop-le width zero value chars base b h = omega arith
length-encode_loop-le zero (suc fuel) value chars base b h = ground (arith, pow-zero base)
length-encode_loop-le (suc width) (suc fuel) value chars base b h = ground (
  arith,
  length-encode_loop-le width fuel (value / base) (base36_char (value % base) ∷ chars) base b
      ((div-lt_iff_lt-mul (omega arith)).1 (rw (← pow-suc base width) h)),
)

pub length-zeros : (n : ℕ) → length (zeros n) ≡ n
length-zeros zero = refl
length-zeros (suc n) = ap suc (length-zeros n)

pub pow36-pos : (width : ℕ) → 0 < 36 ^ width
pow36-pos zero = omega (arith, pow-zero 36)
pow36-pos (suc width) = omega (arith, pow-suc 36 width, pow36-pos width)
