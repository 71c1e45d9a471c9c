-- ===== src/Tracking/Identity.antt =====
-- src/adapt/modules/tracking/identity.py: the birth signature of a cell and its base-36 uid.
-- `hashlib.blake2b(signature, digest_size=8)`, read as a big-endian number, is a parameter.
pub mod Digits
pub mod Uids
use adapt.Prelude.{
  ℕ, zero, suc, ◌+◌, ◌-◌, ◌/◌, ◌%◌, ◌^◌, List, [], ◌∷◌, ◌++◌, Text, codes, ltb, nat_beq,
  if◌then◌else◌, length,
}
use adapt.Exec.{Result, ok, raise, value_error}

-- BASE36_UPPER[d]
abbrev pub base36_char : ℕ → ℕ
base36_char d = if ltb d 10 then 48 + d else 55 + d

-- The loop `while value: value, remainder = divmod(value, base); chars.append(...)`, with the list
-- that it leaves already reversed. The value falls in each round, so `suc value` is fuel enough.
pub encode_loop : (base fuel value : ℕ) → Text → Text
encode_loop base zero value chars = chars
encode_loop base (suc fuel) value chars =
    let rest = encode_loop base fuel (value / base) (base36_char (value % base) ∷ chars) in
    if nat_beq value 0 then chars else rest

unfoldable pub encode_base36 : ℕ → Text
unfolding encode_loop
encode_base36 value = if nat_beq value 0 then codes "0" else encode_loop 36 (suc value) value []

abbrev pub zeros : ℕ → Text
zeros zero = []
zeros (suc n) = b'0' ∷ zeros n

-- token.rjust(width, "0")
unfoldable pub encode_base36_fixed : (value width : ℕ) → Text
unfolding encode_base36
encode_base36_fixed value width =
    let token = encode_base36 value in zeros (width - length token) ++ token

-- str(int) of a label that is not negative: the same loop in base ten.
unfoldable pub decimal : ℕ → Text
unfolding encode_loop
decimal value = if nat_beq value 0 then codes "0" else encode_loop 10 (suc value) value []

unfoldable pub track_signature_v2 : (scan_id : Text) (cell_label : ℕ) → Result Text
unfolding decimal
track_signature_v2 [] cell_label = raise value_error
track_signature_v2 (c ∷ scan_id) cell_label =
    ok (codes "v2|" ++ c ∷ scan_id ++ b'|' ∷ decimal cell_label)

unfoldable pub cell_uid_from_signature : (value64 : Text → ℕ) (signature : Text) (width : ℕ) → Text
unfolding encode_base36_fixed
cell_uid_from_signature value64 signature width =
    encode_base36_fixed (value64 signature % 36 ^ width) width
