-- ===== src/Examples/Assignment.antt =====
-- The assignment of candidates and the identities of cells at small inputs.
use adapt.Prelude.{
  ℕ, ◌%◌, ◌^◌, ◌≡◌, refl, ◌↔◌, true, false, not, ◌||◌, List, [], ◌∷◌, arith, codes, length, mem,
  nat_eq,
}
use adapt.Exec.{ok}
use adapt.Tracking.Assignment.{Edge, edge_eq, resolve, prev_deg, curr_deg, is_free, mutually_unique}
use adapt.Tracking.Assignment.Propagation.{
  resolve_matching, resolve_covers, resolve_subset, resolve_converged,
}
use adapt.Tracking.Identity.{encode_base36_fixed, cell_uid_from_signature, track_signature_v2}
use adapt.Tracking.Identity.Digits.{decode_from}
use adapt.Tracking.Identity.Uids.{
  encode_base36_fixed-roundtrip, cell_uid_from_signature-eq_iff, track_signature_v2-injective,
}

abbrev edge : ℕ → ℕ → Edge
edge i j = record { prev = i; curr = j }

-- 0 has the only edge to 0 once 1 is matched to 1; 2 and 3 compete for 2 and 3.
abbrev edges : List Edge
edges = edge 1 1 ∷ edge 0 0 ∷ edge 2 2 ∷ edge 2 3 ∷ edge 3 2 ∷ edge 3 3 ∷ []

resolve-edges :
    resolve edges ≡ (edge 0 0 ∷ edge 1 1 ∷ [], edge 2 2 ∷ edge 2 3 ∷ edge 3 2 ∷ edge 3 3 ∷ [])
unfolding resolve
resolve-edges = refl

forced : mem (edge 1 1) (resolve edges).0 ≡ true
unfolding resolve
forced = refl

left : mem (edge 2 3) (resolve edges).1 ≡ true
unfolding resolve
left = refl

one_of : (mem (edge 2 3) (resolve edges).0 || mem (edge 2 3) (resolve edges).1) ≡ true
unfolding resolve
one_of = refl

resolve_matching_example :
    (prev_deg 1 (resolve edges).0 ≡ 1)
    × (curr_deg 1 (resolve edges).0 ≡ 1)
    × (prev_deg 1 (resolve edges).1 ≡ 0)
    × (curr_deg 1 (resolve edges).1 ≡ 0)
resolve_matching_example = resolve_matching edges (edge 1 1) forced

resolve_covers_example :
    (mem (edge 2 3) (resolve edges).1 || not (is_free (resolve edges).0 (edge 2 3))) ≡ true
resolve_covers_example = resolve_covers edges (edge 2 3) refl

resolve_subset_example : mem (edge 2 3) edges ≡ true
resolve_subset_example = resolve_subset edges (edge 2 3) one_of

resolve_converged_example : mutually_unique (resolve edges).1 (edge 2 3) ≡ false
resolve_converged_example = resolve_converged edges (edge 2 3) left

encode_1295 : encode_base36_fixed 1295 4 ≡ codes "00ZZ"
unfolding encode_base36_fixed
encode_1295 = refl

encode_base36_fixed-roundtrip_example :
    (length (encode_base36_fixed 1295 4) ≡ 4)
    × (decode_from 36 0 (encode_base36_fixed 1295 4) ≡ 1295)
encode_base36_fixed-roundtrip_example =
    encode_base36_fixed-roundtrip 1295 4 (omega arith) (omega arith)

cell_uid_from_signature-eq_iff_example :
    (cell_uid_from_signature (length {A = ℕ}) (codes "v2|a|1") 2
      ≡ cell_uid_from_signature (length {A = ℕ}) (codes "v2|b|7") 2)
    ↔ (◌≡◌ {A = ℕ} (6 % 36 ^ 2) (6 % 36 ^ 2))
cell_uid_from_signature-eq_iff_example =
    cell_uid_from_signature-eq_iff (length {A = ℕ}) (codes "v2|a|1") (codes "v2|b|7") 2
      (omega arith)

signature_12 : track_signature_v2 (codes "ab") 12 ≡ ok (codes "v2|ab|12")
unfolding track_signature_v2
signature_12 = refl

track_signature_v2-injective_example : (codes "ab" ≡ codes "ab") × (◌≡◌ {A = ℕ} 12 12)
track_signature_v2-injective_example =
    track_signature_v2-injective (codes "ab") (codes "ab") 12 12 (codes "v2|ab|12") (omega arith)
      (omega arith) signature_12 signature_12
