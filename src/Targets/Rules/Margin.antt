-- ===== src/Targets/Rules/Margin.antt =====
-- continue_or_switch: when the engine leaves its target for another.
use mathlib.Core.List.{Memᴰ}
use adapt.Prelude.{
  ◌≡◌, sym, ap, ◌∙◌, inl, inr, true, false, some, [], ◌∷◌, arith, Text, text_eq, ◌==◌, All,
  Bool-cases, Option-cases,
}
use adapt.Dict.{Dict, get}
use adapt.Exec.{ok}
use adapt.Floats.{FloatOps, IsOrdered}
use adapt.Targets.Models.{continuation, switch}
use adapt.Targets.Rules.{select_best, without, continue_or_switch}
use adapt.Targets.Rules.Best.{All-at, select_best_greatest, select_best-ne-none}

module _ {F : Type 0} (fl : FloatOps F) (ordered : IsOrdered fl) where
  open ordered use {less_trans, less-same}

  mem-without :
      (excluded : Text) (x : Text × F) (scored : Dict Text F)
      → Memᴰ x (without fl excluded scored)
      → Memᴰ x scored × ((x.0 == excluded) ≡ false)
  mem-without excluded x [] h = elim h [ ]
  mem-without excluded x ((u, s) ∷ scored) h = elim (Bool-cases (u == excluded)) [
    | inl same ↦ let (m, n) = mem-without excluded x scored (rw same at h) in (Memᴰ.tail m, n)
    | inr other ↦ kept other (rw other at h) (λ m. mem-without excluded x scored m)
  ]
    where
      kept :
          (u == excluded) ≡ false
          → Memᴰ x ((u, s) ∷ without fl excluded scored)
          → (Memᴰ x (without fl excluded scored) → Memᴰ x scored × ((x.0 == excluded) ≡ false))
          → Memᴰ x ((u, s) ∷ scored) × ((x.0 == excluded) ≡ false)
      kept other (Memᴰ.head e) rec = (Memᴰ.head e, rw e other)
      kept other (Memᴰ.tail m) rec = let (inside, n) = rec m in (Memᴰ.tail inside, n)

  without-mem :
      (excluded : Text) (x : Text × F) (scored : Dict Text F)
      → (x.0 == excluded) ≡ false
      → Memᴰ x scored
      → Memᴰ x (without fl excluded scored)
  without-mem excluded x [] n h = elim h [ ]
  without-mem excluded x ((u, s) ∷ scored) n (Memᴰ.head e) =
      rw (ap (λ y. y.0 == excluded) (sym e) ∙ n) (Memᴰ.head e)
  without-mem excluded x ((u, s) ∷ scored) n (Memᴰ.tail m) = elim (Bool-cases (u == excluded)) [
    | inl same ↦ rw same (without-mem excluded x scored n m)
    | inr other ↦ rw other (Memᴰ.tail (without-mem excluded x scored n m))
  ]

  -- For floats ordered as IEEE 754 says and a current target with a score: a switch goes to another
  -- scored cell, whose score exceeds that of the current one by more than the margin and is not
  -- exceeded by any other challenger's.
  pub continue_or_switch_switches :
      (current uid : Text) (scored : Dict Text F) (margin current_score : F) (challenger : Text × F)
      → get current scored ≡ some current_score
      → continue_or_switch fl current scored margin ≡ ok (uid, switch)
      → Memᴰ challenger scored
      → (challenger.0 == current) ≡ false
      → (score : F) × Memᴰ (uid, score) scored
        × ((uid == current) ≡ false)
        × (fl.less (fl.plus current_score margin) score ≡ true)
        × (fl.less score challenger.1 ≡ false)
  unfolding continue_or_switch
  continue_or_switch_switches current uid scored margin current_score challenger found h m other =
      elim (Option-cases (select_best fl (without fl current scored))) [
        | inl ((best, score), e) ↦
            let (inside, no_better, tie) =
              select_best_greatest fl ordered (without fl current scored) (best, score) challenger e
                (without-mem current challenger scored other m) in
            let (listed, differs) = mem-without current (best, score) scored inside in
            let same_uid : best ≡ uid = ground arith in
            (score, rw (← same_uid) listed, rw (← same_uid) differs, ground arith, no_better)
        | inr nothing ↦ absurd (ground arith)
      ]

  -- For floats ordered as IEEE 754 says and a current target with a score, where no score is NaN:
  -- the current target is kept only if no challenger's score exceeds its score by more than the
  -- margin.
  pub continue_or_switch_continues :
      (current uid : Text) (scored : Dict Text F) (margin current_score : F) (challenger : Text × F)
      → get current scored ≡ some current_score
      → All (λ entry. fl.is_nan entry.1 ≡ false) scored
      → continue_or_switch fl current scored margin ≡ ok (uid, continuation)
      → Memᴰ challenger scored
      → (challenger.0 == current) ≡ false
      → (uid ≡ current) × (fl.less (fl.plus current_score margin) challenger.1 ≡ false)
  unfolding continue_or_switch
  continue_or_switch_continues current uid scored margin current_score challenger found numbers h m
        other =
      elim (Option-cases (select_best fl (without fl current scored))) [
        | inl ((best, score), e) ↦
            let (inside, no_better, tie) =
              select_best_greatest fl ordered (without fl current scored) (best, score) challenger e
                (without-mem current challenger scored other m) in
            let (listed, differs) = mem-without current (best, score) scored inside in
            let limit = fl.plus current_score margin in
            (
              ground arith,
              ground (
                arith,
                ordered.less_total challenger.1 score,
                All-at fl ordered (λ x. fl.is_nan x.1 ≡ false) (best, score) scored listed numbers,
                All-at fl ordered (λ x. fl.is_nan x.1 ≡ false) challenger scored m numbers,
                less_trans limit challenger.1 score,
                less-same limit challenger.1 score,
              ),
            )
        | inr nothing ↦ absurd (
            select_best-ne-none fl ordered challenger (without fl current scored) nothing
              (without-mem current challenger scored other m))
      ]
