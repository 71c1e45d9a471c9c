-- ===== src/Targets/Engine/Candidates.antt =====
-- TargetSelectionEngine.select (src/adapt/consumers/target_selection/engine.py): the dicts of
-- candidates and scores that it decides on.
use adapt.Prelude.{
  ◌≡◌, sym, subst, ap, ◌∙◌, inl, inr, Bool, true, false, Option, none, some, List, [], ◌∷◌, arith,
  Text, text_eq, ◌==◌, ◌||◌, All, Bool-cases, if◌then◌else◌,
}
use adapt.Dict.{Dict, get, has, put, get-put, has-put}
use adapt.Exec.{ok, Result-cases}
use adapt.Floats.{FloatOps}
use adapt.Targets.Models.{TseConfig, CellSnapshot}
use adapt.Targets.Rules.{is_candidate, total_score, min_from, select_best, without}
use adapt.Targets.Engine.{Calendar, candidates_from, scores_of, find, eligible}

module _ {F : Type 0} (fl : FloatOps F) (calendar : Calendar F) (config : TseConfig F) where
  if_lem : (P : Text × F → Type 0) (b : Bool) (x y : Text × F) → P x → P y → P (if b then x else y)
  if_lem P true x y p q = p
  if_lem P false x y p q = q

  min_from-All :
      (P : Text × F → Type 0) (rest : Dict Text F) (best : Text × F)
      → P best
      → All P rest
      → P (min_from fl best rest)
  unfolding min_from
  min_from-All P [] best p ps = p
  min_from-All P (entry ∷ rest) best p (q, qs) =
      min_from-All P rest _ (if_lem P _ entry best q p) qs

  pub select_best-All :
      (P : Text × F → Type 0) (scored : Dict Text F) (best : Text × F)
      → select_best fl scored ≡ some best
      → All P scored
      → P best
  unfolding select_best
  select_best-All P [] best e ps = absurd (ground arith)
  select_best-All P (entry ∷ rest) best e (p, ps) =
      let same : min_from fl entry rest ≡ best = cc in subst P same (min_from-All P rest entry p ps)

  pub without-All :
      (P : Text × F → Type 0) (uid : Text) (scored : Dict Text F)
      → All P scored
      → All P (without fl uid scored)
  without-All P uid [] ps = tt
  without-All P uid ((u, s) ∷ scored) (p, ps) = elim (Bool-cases (u == uid)) [
    | inl same ↦ rw same (without-All P uid scored ps)
    | inr other ↦ rw other (p, without-All P uid scored ps)
  ]

  pub eligible-All :
      (P : Text × F → Type 0) (exclude : Option Text) (scored : Dict Text F)
      → All P scored
      → All P (eligible fl calendar config exclude scored)
  eligible-All P none scored ps = ps
  eligible-All P (some uid) scored ps = without-All P uid scored ps

  ok_inj : (a b : Dict Text F) → ok a ≡ ok b → a ≡ b
  ok_inj a b e = ground arith

  abbrev pub IsKeyed : Dict Text (CellSnapshot F) → Type 0
  IsKeyed candidates =
      (uid : Text) (cell : CellSnapshot F) → get uid candidates ≡ some cell → cell.uid ≡ uid

  pub empty-IsKeyed : IsKeyed []
  unfolding get
  empty-IsKeyed uid cell e = absurd (ground arith)

  -- What the loop has found is by uid, keeps what was there, and has every cell that passes.
  pub record Collects (cells : List (CellSnapshot F))
      (found candidates : Dict Text (CellSnapshot F)) : Type 0 where
    pub keyed : IsKeyed found → IsKeyed candidates
    pub kept : (uid : Text) → has uid found ≡ true → has uid candidates ≡ true
    pub passes :
        (uid : Text) (cell : CellSnapshot F) (b : Bool)
        → find fl calendar config cells uid ≡ some cell
        → is_candidate fl cell config ≡ ok b
        → b ≡ true
        → has uid candidates ≡ true
    pub checked :
        (uid : Text) (cell : CellSnapshot F)
        → find fl calendar config cells uid ≡ some cell
        → (b : Bool) × (is_candidate fl cell config ≡ ok b)

  put-IsKeyed :
      (c : CellSnapshot F) (found : Dict Text (CellSnapshot F))
      → IsKeyed found
      → IsKeyed (put c.uid c found)
  put-IsKeyed c found k uid cell e = elim (Bool-cases (c.uid == uid)) [
    | inl same ↦
        let here : c ≡ cell = ground (arith, get-put c.uid uid c found) in
        ap (λ x. x.uid) (sym here) ∙ ground (arith, text_eq.beq_iff c.uid uid)
    | inr other ↦ k uid cell (ground (arith, get-put c.uid uid c found))
  ]

  Collects-passed :
      (c : CellSnapshot F) (cells : List (CellSnapshot F))
      (found candidates : Dict Text (CellSnapshot F))
      → is_candidate fl c config ≡ ok true
      → Collects cells (put c.uid c found) candidates
      → Collects (c ∷ cells) found candidates
  Collects-passed c cells found candidates r rec = record {
    keyed = λ k. rec.keyed (put-IsKeyed c found k);
    kept = λ uid h. rec.kept uid (has-put c.uid uid c found ∙ ground arith);
    passes = λ uid cell b f i t. elim (Bool-cases (c.uid == uid)) [
      | inl same ↦ rec.kept uid (has-put c.uid uid c found ∙ ground arith)
      | inr other ↦ rec.passes uid cell b (ground arith) i t
    ];
    checked = λ uid cell f. elim (Bool-cases (c.uid == uid)) [
      | inl same ↦
          let here : c ≡ cell = ground arith in
          (true, ap (λ x. is_candidate fl x config) (sym here) ∙ r)
      | inr other ↦ rec.checked uid cell (ground arith)
    ];
  }

  Collects-failed :
      (c : CellSnapshot F) (cells : List (CellSnapshot F))
      (found candidates : Dict Text (CellSnapshot F))
      → is_candidate fl c config ≡ ok false
      → Collects cells found candidates
      → Collects (c ∷ cells) found candidates
  Collects-failed c cells found candidates r rec = record {
    keyed = rec.keyed;
    kept = rec.kept;
    passes = λ uid cell b f i t. elim (Bool-cases (c.uid == uid)) [
      | inl same ↦
          let here : c ≡ cell = ground arith in
          let both = sym r ∙ ap (λ x. is_candidate fl x config) here ∙ i in
          absurd (ground (arith, both))
      | inr other ↦ rec.passes uid cell b (ground arith) i t
    ];
    checked = λ uid cell f. elim (Bool-cases (c.uid == uid)) [
      | inl same ↦
          let here : c ≡ cell = ground arith in
          (false, ap (λ x. is_candidate fl x config) (sym here) ∙ r)
      | inr other ↦ rec.checked uid cell (ground arith)
    ];
  }

  pub candidates_from-Collects :
      (cells : List (CellSnapshot F)) (found candidates : Dict Text (CellSnapshot F))
      → candidates_from fl calendar config cells found ≡ ok candidates
      → Collects cells found candidates
  unfolding candidates_from
  candidates_from-Collects [] found candidates e =
      let same : found ≡ candidates = cc in
      record {
        keyed = λ k. subst IsKeyed same k;
        kept = λ uid h. ap (has uid) (sym same) ∙ h;
        passes = λ uid cell b f. absurd (ground arith);
        checked = λ uid cell f. absurd (ground arith);
      }
  candidates_from-Collects (c ∷ cells) found candidates e =
      elim (Result-cases (is_candidate fl c config)) [
        | inr (x, r) ↦ absurd (ground arith)
        | inl (true, r) ↦ Collects-passed c cells found candidates r (
            candidates_from-Collects cells (put c.uid c found) candidates
              (rw (r, candidates_from) at e))
        | inl (false, r) ↦
            Collects-failed c cells found candidates r
              (candidates_from-Collects cells found candidates (rw (r, candidates_from) at e))
      ]

  -- The scores are those of the candidates.
  pub has-scores_of :
      (candidates : Dict Text (CellSnapshot F)) (scored : Dict Text F) (uid : Text)
      → scores_of fl calendar config candidates ≡ ok scored
      → has uid scored ≡ has uid candidates
  unfolding scores_of has
  has-scores_of [] scored uid e = ap (has uid) (sym (ok_inj [] scored e))
  has-scores_of ((u, c) ∷ candidates) scored uid e = elim (Result-cases (total_score fl c config)) [
    | inr (x, r) ↦ absurd (ground arith)
    | inl (score, r) ↦ elim (Result-cases (scores_of fl calendar config candidates)) [
      | inr (x, q) ↦ absurd (ground arith)
      | inl (scores, q) ↦
          let whole : (u, score) ∷ scores ≡ scored = ground arith in
          ap (has uid) (sym whole) ∙ ap (λ b. u == uid || b) (has-scores_of candidates scores uid q)
    ]
  ]
