-- ===== src/Targets/Rules/Best.antt =====
-- select_best and continue_or_switch against the order of the scores.
use mathlib.Core.List.{Memᴰ}
use adapt.Prelude.{
  ◌≡◌, refl, sym, ap, inl, inr, Bool, true, false, ◌&&◌, none, some, List, [], ◌∷◌, arith, Text,
  text_eq, text_ltb, text_ltb_irrefl, text_ltb_trans, if◌then◌else◌, All, Bool-cases, subst,
}
use adapt.Dict.{Dict}
use adapt.Floats.{FloatOps, IsOrdered}
use adapt.Targets.Rules.{key_before, min_from, select_best}

module _ {F : Type 0} (fl : FloatOps F) (ordered : IsOrdered fl) where
  open ordered use {
    less_irrefl, less_trans, same_sym, same_trans, less-same, same-less, less-neg, same-neg,
  }

  less_not_same : (a b : F) → fl.less a b ≡ true → fl.same a b ≡ false
  less_not_same a b h = elim (Bool-cases (fl.same a b)) [
    | inl s ↦ ground (arith, less-same a b a, same_sym a b, less_irrefl a)
    | inr n ↦ n
  ]

  key_before_irrefl : (x : Text × F) → key_before fl x x ≡ false
  key_before_irrefl (u, s) = ground (arith, text_ltb_irrefl u, less_irrefl (fl.neg s))

  key_before_trans :
      (x y z : Text × F)
      → key_before fl x y ≡ true
      → key_before fl y z ≡ true
      → key_before fl x z ≡ true
  key_before_trans (u, s) (v, t) (w, r) p q =
      let a = fl.neg s in
      let b = fl.neg t in
      let c = fl.neg r in
      ground (
        arith,
        text_ltb_trans u v w,
        same_trans a b c,
        less_trans a b c,
        less-same a b c,
        same-less a b c,
        less_not_same a c,
      )

  min_from-cons :
      (best entry : Text × F) (rest : List (Text × F)) (b : Bool)
      → key_before fl entry best ≡ b
      → min_from fl best (entry ∷ rest) ≡ min_from fl (if b then entry else best) rest
  unfolding min_from
  min_from-cons best entry rest b h = ap (λ c. min_from fl (if c then entry else best) rest) h

  -- The loop returns one of the entries, and none of them comes before it.
  min_from_lem :
      (rest seen : List (Text × F)) (best : Text × F)
      → All (λ x. key_before fl x best ≡ false) seen
      → All (λ x. key_before fl x (min_from fl best rest) ≡ false) rest
        × All (λ x. key_before fl x (min_from fl best rest) ≡ false) seen
        × (key_before fl best (min_from fl best rest) ≡ false)
  unfolding min_from
  min_from_lem [] seen best h = (tt, h, key_before_irrefl best)
  min_from_lem (entry ∷ rest) seen best h = elim (Bool-cases (key_before fl entry best)) [
    | inl before ↦ subst Least (sym (min_from-cons best entry rest true before)) (
        let (r, s, own) =
          min_from_lem rest (best ∷ seen) entry (not_before before, later before seen h) in
        ((own, r), s.1, s.0))
    | inr behind ↦ subst Least (sym (min_from-cons best entry rest false behind)) (
        let (r, s, own) = min_from_lem rest (entry ∷ seen) best (behind, h) in ((s.0, r), s.1, own))
  ]
    where
      Least : Text × F → Type 0
      Least m =
          All (λ x. key_before fl x m ≡ false) (entry ∷ rest)
          × All (λ x. key_before fl x m ≡ false) seen
          × (key_before fl best m ≡ false)

      not_before : key_before fl entry best ≡ true → key_before fl best entry ≡ false
      not_before before = ground (arith, key_before_trans entry best entry, key_before_irrefl entry)

      later :
          key_before fl entry best ≡ true
          → (xs : List (Text × F)) → All (λ x. key_before fl x best ≡ false) xs
          → All (λ x. key_before fl x entry ≡ false) xs
      later before [] t = tt
      later before (x ∷ xs) (p, ps) =
          (ground (arith, key_before_trans x entry best), later before xs ps)

  min_from-member :
      (rest : List (Text × F)) (best : Text × F) → Memᴰ (min_from fl best rest) (best ∷ rest)
  unfolding min_from
  min_from-member [] best = Memᴰ.head refl
  min_from-member (entry ∷ rest) best = elim (Bool-cases (key_before fl entry best)) [
    | inl before ↦
        rw (min_from-cons best entry rest true before) (Memᴰ.tail (min_from-member rest entry))
    | inr behind ↦
        rw (min_from-cons best entry rest false behind) (skip (min_from-member rest best))
  ]
    where
      skip :
          Memᴰ (min_from fl best rest) (best ∷ rest)
          → Memᴰ (min_from fl best rest) (best ∷ entry ∷ rest)
      skip (Memᴰ.head e) = Memᴰ.head e
      skip (Memᴰ.tail h) = Memᴰ.tail (Memᴰ.tail h)

  -- What select_best returns is one of the entries, and no entry has a greater score, or the same
  -- score and a smaller uid.
  pub select_best-is-min :
      (scored : Dict Text F) (best : Text × F)
      → select_best fl scored ≡ some best
      → Memᴰ best scored × All (λ entry. key_before fl entry best ≡ false) scored
  unfolding select_best
  select_best-is-min [] best h = absurd (ground arith)
  select_best-is-min (entry ∷ rest) best h =
      let e : min_from fl entry rest ≡ best = cc in
      let (r, s, own) = min_from_lem rest [] entry tt in
      subst (λ b. Memᴰ b (entry ∷ rest) × All (λ x. key_before fl x b ≡ false) (entry ∷ rest)) e
        (min_from-member rest entry, (own, r))

  pub All-at :
      (P : Text × F → Type 0) (x : Text × F) (xs : List (Text × F)) → Memᴰ x xs → All P xs → P x
  All-at P x [] h a = elim h [ ]
  All-at P x (y ∷ xs) (Memᴰ.head e) (p, ps) = subst P (sym e) p
  All-at P x (y ∷ xs) (Memᴰ.tail h) (p, ps) = All-at P x xs h ps

  key_before→score :
      (x y : Text × F)
      → key_before fl x y ≡ false
      → (fl.less y.1 x.1 ≡ false)
        × ((fl.same (fl.neg x.1) (fl.neg y.1) && text_ltb x.0 y.0) ≡ false)
  key_before→score (u, s) (v, t) h = ground (arith, less-neg s t, less_not_same t s, same-neg s t)

  -- For floats ordered as IEEE 754 says: select_best returns one of the scored cells; no other has a
  -- greater score, and none with the same score has a smaller uid.
  pub select_best_greatest :
      (scored : Dict Text F) (best entry : Text × F)
      → select_best fl scored ≡ some best
      → Memᴰ entry scored
      → Memᴰ best scored
        × (fl.less best.1 entry.1 ≡ false)
        × ((fl.same (fl.neg entry.1) (fl.neg best.1) && text_ltb entry.0 best.0) ≡ false)
  select_best_greatest scored best entry h m =
      let (inside, least) = select_best-is-min scored best h in
      let (score, tie) =
        key_before→score entry best
          (All-at (λ x. key_before fl x best ≡ false) entry scored m least) in
      (inside, score, tie)

  pub select_best-ne-none :
      (x : Text × F) (d : Dict Text F) → select_best fl d ≡ none → Memᴰ x d → ⊥
  unfolding select_best
  select_best-ne-none x [] e m = elim m [ ]
  select_best-ne-none x (y ∷ d) e m = cc
