-- ===== src/Tracking/Identity/Uids.antt =====
-- What the uids and signatures of identity.py determine.
use native.Mathlib.Nat.{mod-lt}
use adapt.Prelude.{
  ℕ, suc, ◌-◌, ◌%◌, ◌^◌, ◌≤◌, ◌<◌, ◌≡◌, refl, sym, ap, ◌∙◌, ◌≢◌, ◌↔◌, [], ◌∷◌, ◌++◌, arith, Text,
  nat_beq, length, length-append, All, inl, inr, Bool-cases,
}
use adapt.Exec.{ok}
use adapt.Tracking.Identity.{
  encode_base36, encode_base36_fixed, decimal, zeros, track_signature_v2, cell_uid_from_signature,
}
use adapt.Tracking.Identity.Digits.{
  decode_from, decode-encode_loop, decode-zeros, length-encode_loop-le, length-zeros, pow36-pos,
}

-- Reading a base-36 token, or a decimal one, back gives the number.
decode-encode_base36 : (value : ℕ) → decode_from 36 0 (encode_base36 value) ≡ value
unfolding encode_base36 decode_from
decode-encode_base36 value = elim (Bool-cases (nat_beq value 0)) [
  | inl z ↦ rw z (ground arith)
  | inr nz ↦
      rw nz (rw nz at (decode-encode_loop (suc value) value [] 36 (omega arith) (omega arith)))
]

decode-decimal : (value : ℕ) → decode_from 10 0 (decimal value) ≡ value
unfolding decimal decode_from
decode-decimal value = elim (Bool-cases (nat_beq value 0)) [
  | inl z ↦ rw z (ground arith)
  | inr nz ↦
      rw nz (rw nz at (decode-encode_loop (suc value) value [] 10 (omega arith) (omega arith)))
]

length-encode_base36-le :
    (value width : ℕ) → 0 < width → value < 36 ^ width → length (encode_base36 value) ≤ width
unfolding encode_base36
length-encode_base36-le value width w h =
    ground (arith, length-encode_loop-le width (suc value) value [] 36 (omega arith) h)

-- A number below 36 ^ width, for a positive width, is written with exactly `width` characters, and
-- reading them back gives the number.
pub encode_base36_fixed-roundtrip :
    (value width : ℕ)
    → 0 < width
    → value < 36 ^ width
    → (length (encode_base36_fixed value width) ≡ width)
      × (decode_from 36 0 (encode_base36_fixed value width) ≡ value)
unfolding encode_base36_fixed
encode_base36_fixed-roundtrip value width w h =
    let token = encode_base36 value in
    let fits = length-encode_base36-le value width w h in
    (
      omega (
        arith,
        length-append (zeros (width - length token)) token,
        length-zeros (width - length token),
      ),
      decode-zeros (width - length token) token ∙ decode-encode_base36 value,
    )

-- Two signatures get the same uid of a positive width exactly if their hashes agree modulo
-- 36 ^ width.
pub cell_uid_from_signature-eq_iff :
    (value64 : Text → ℕ) (s t : Text) (width : ℕ)
    → 0 < width
    → (cell_uid_from_signature value64 s width ≡ cell_uid_from_signature value64 t width)
      ↔ (value64 s % 36 ^ width ≡ value64 t % 36 ^ width)
unfolding cell_uid_from_signature
cell_uid_from_signature-eq_iff value64 s t width w =
    let back = λ (v : ℕ).
      (encode_base36_fixed-roundtrip (v % 36 ^ width) width w (mod-lt v (pow36-pos width))).1 in
    (
      (λ e. sym (back (value64 s)) ∙ ap (decode_from 36 0) e ∙ back (value64 t)),
      (λ e. ap (λ v. encode_base36_fixed v width) e),
    )

-- No character of the text is '|'.
abbrev pub NoBar : Text → Type 0
NoBar = All (λ c. c ≢ b'|')

split_unique :
    (s t x y : Text) → NoBar s → NoBar t → s ++ b'|' ∷ x ≡ t ++ b'|' ∷ y → (s ≡ t) × (x ≡ y)
split_unique [] [] x y p q e = (refl, cc)
split_unique [] (c ∷ t) x y p q e = absurd (q.0 cc)
split_unique (c ∷ s) [] x y p q e = absurd (p.0 cc)
split_unique (c ∷ s) (d ∷ t) x y p q e =
    let (same, rest) = split_unique s t x y p.1 q.1 cc in (cc, rest)

-- A signature determines the scan and the label of the cell's birth: of scan ids without '|'.
pub track_signature_v2-injective :
    (s t : Text) (a b : ℕ) (signature : Text)
    → NoBar s
    → NoBar t
    → track_signature_v2 s a ≡ ok signature
    → track_signature_v2 t b ≡ ok signature
    → (s ≡ t) × (a ≡ b)
unfolding track_signature_v2
track_signature_v2-injective [] t a b signature p q e f = ground arith
track_signature_v2-injective (c ∷ s) [] a b signature p q e f = ground arith
track_signature_v2-injective (c ∷ s) (d ∷ t) a b signature p q e f =
    let (ids, labels) = split_unique (c ∷ s) (d ∷ t) (decimal a) (decimal b) p q cc in
    (ids, sym (decode-decimal a) ∙ ap (decode_from 10 0) labels ∙ decode-decimal b)
