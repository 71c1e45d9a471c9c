-- ===== src/Dict.antt =====
-- Python's `dict` as an association list in insertion order: an update keeps an entry's place, a
-- new key goes to the end.
use adapt.Prelude.{
  ◌≡◌, refl, sym, ◌∙◌, ◌⊎◌, inl, inr, Bool, true, false, ◌||◌, Option, none, some, List, [], ◌∷◌,
  ◌++◌, arith, Eq, ◌==◌, if◌then◌else◌, Bool-cases, length, mem, beq_refl,
}

abbrev pub Dict {ℓ κ} : Type ℓ → Type κ → Type (ℓ ⊔ κ)
Dict K V = List (K × V)

module _ {ℓ κ} {K : Type ℓ} {V : Type κ} where
  -- list(d)
  abbrev pub keys : Dict K V → List K
  keys [] = []
  keys ((k, v) ∷ d) = k ∷ keys d

  -- list(d.values())
  abbrev pub values : Dict K V → List V
  values [] = []
  values ((k, v) ∷ d) = v ∷ values d

  pub length-keys : (d : Dict K V) → length (keys d) ≡ length d
  length-keys [] = refl
  length-keys ((k, v) ∷ d) = ground (arith, length-keys d)

module _ {ℓ κ} {K : Type ℓ} {V : Type κ} ⦃e : Eq K⦄ where
  -- d.get(k)
  unfoldable pub get : K → Dict K V → Option V
  get k [] = none
  get k ((j, v) ∷ d) = if j == k then some v else get k d

  -- k in d
  unfoldable pub has : K → Dict K V → Bool
  has k [] = false
  has k ((j, v) ∷ d) = j == k || has k d

  -- d[k] = v
  unfoldable pub put : K → V → Dict K V → Dict K V
  put k v [] = (k, v) ∷ []
  put k v ((j, w) ∷ d) = if j == k then (j, v) ∷ d else (j, w) ∷ put k v d

  -- d.pop(k, None)
  unfoldable pub pop : K → Dict K V → Dict K V
  pop k [] = []
  pop k ((j, w) ∷ d) = if j == k then d else (j, w) ∷ pop k d

  -- d.update(m)
  unfoldable pub update : Dict K V → Dict K V → Dict K V
  update d [] = d
  update d ((k, v) ∷ m) = update (put k v d) m

  pub get-put :
      (k j : K) (v : V) (d : Dict K V) → get j (put k v d) ≡ (if k == j then some v else get j d)
  unfolding get put
  get-put k j v [] = refl
  get-put k j v ((i, w) ∷ d) = elim (Bool-cases (i == k)) [
    | inl p ↦ rw ((e.beq_iff i k).0 p) (ground (arith, beq_refl k))
    | inr p ↦ elim (Bool-cases (i == j)) [
      | inl q ↦ ground (arith, e.beq_iff i j, e.beq_iff i k, e.beq_iff k j, get-put k j v d)
      | inr q ↦ ground (arith, get-put k j v d)
    ]
  ]

  pub has-put : (k j : K) (v : V) (d : Dict K V) → has j (put k v d) ≡ (k == j || has j d)
  unfolding has put
  has-put k j v [] = refl
  has-put k j v ((i, w) ∷ d) = elim (Bool-cases (i == k)) [
    | inl p ↦ rw ((e.beq_iff i k).0 p) (ground (arith, beq_refl k))
    | inr p ↦ ground (arith, has-put k j v d)
  ]

  pub has→get : (k : K) (d : Dict K V) → has k d ≡ true → (v : V) × (get k d ≡ some v)
  unfolding has get
  has→get k [] h = ground arith
  has→get k ((j, v) ∷ d) h = elim (Bool-cases (j == k)) [
    | inl p ↦ (v, ground arith)
    | inr p ↦ let (w, q) = has→get k d (ground arith) in (w, ground arith)
  ]

  pub get→has : (k : K) (v : V) (d : Dict K V) → get k d ≡ some v → has k d ≡ true
  unfolding has get
  get→has k v [] h = ground arith
  get→has k v ((j, w) ∷ d) h = ground (arith, get→has k v d)

  pub has_false→get : (k : K) (d : Dict K V) → has k d ≡ false → get k d ≡ none
  unfolding has get
  has_false→get k [] h = refl
  has_false→get k ((j, w) ∷ d) h = ground (arith, has_false→get k d)

  -- A new key goes to the end.
  pub put_new : (k : K) (v : V) (d : Dict K V) → has k d ≡ false → put k v d ≡ d ++ (k, v) ∷ []
  unfolding has put
  put_new k v [] h = refl
  put_new k v ((j, w) ∷ d) h = ground (arith, put_new k v d)

  pub has-append : (k : K) (d m : Dict K V) → has k (d ++ m) ≡ (has k d || has k m)
  unfolding has
  has-append k [] m = refl
  has-append k ((j, v) ∷ d) m = ground (arith, has-append k d m)

  pub has-keys : (k : K) (d : Dict K V) → has k d ≡ mem k (keys d)
  unfolding has
  has-keys k [] = refl
  has-keys k ((j, v) ∷ d) = ground (arith, has-keys k d, e.beq_iff j k, e.beq_iff k j)

  -- No key stands twice.
  abbrev pub UniqueKeys : Dict K V → Type 0
  UniqueKeys [] = Unit
  UniqueKeys ((k, v) ∷ d) = (has k d ≡ false) × UniqueKeys d

  pub put-UniqueKeys : (k : K) (v : V) (d : Dict K V) → UniqueKeys d → UniqueKeys (put k v d)
  unfolding put has
  put-UniqueKeys k v [] u = (refl, tt)
  put-UniqueKeys k v ((j, w) ∷ d) (fresh, u) = elim (Bool-cases (j == k)) [
    | inl p ↦ rw p (fresh, u)
    | inr p ↦
        rw p (ground (arith, has-put k j v d, e.beq_iff j k, e.beq_iff k j), put-UniqueKeys k v d u)
  ]

  has-pop_absent : (j k : K) (d : Dict K V) → has j d ≡ false → has j (pop k d) ≡ false
  unfolding has pop
  has-pop_absent j k [] h = refl
  has-pop_absent j k ((i, w) ∷ d) h = ground (arith, has-pop_absent j k d)

  pub pop-UniqueKeys : (k : K) (d : Dict K V) → UniqueKeys d → UniqueKeys (pop k d)
  unfolding pop
  pop-UniqueKeys k [] u = tt
  pop-UniqueKeys k ((j, w) ∷ d) (fresh, u) = elim (Bool-cases (j == k)) [
    | inl p ↦ rw p u
    | inr p ↦ rw p (has-pop_absent j k d fresh, pop-UniqueKeys k d u)
  ]

  pub get-pop :
      (k j : K) (d : Dict K V) → UniqueKeys d → get j (pop k d) ≡ (if k == j then none else get j d)
  unfolding get pop has
  get-pop k j [] u = ground arith
  get-pop k j ((i, w) ∷ d) (fresh, u) = elim (Bool-cases (i == k)) [
    | inl p ↦ ground (arith, (e.beq_iff i k).0 p, beq_refl k, e.beq_iff k j, has_false→get k d)
    | inr p ↦ ground (arith, get-pop k j d u, e.beq_iff i j, e.beq_iff i k, e.beq_iff k j)
  ]

  -- What is found after a `put` is the new value, or was there under another key.
  pub get-put_cases :
      (k j : K) (v w : V) (d : Dict K V)
      → get j (put k v d) ≡ some w
      → ((k ≡ j) × (v ≡ w)) ⊎ (((k == j) ≡ false) × (get j d ≡ some w))
  get-put_cases k j v w d h = elim (Bool-cases (k == j)) [
    | inl p ↦ inl ((e.beq_iff k j).0 p, some_inj v w (sym (get-put k j v d ∙ rw p) ∙ h))
    | inr p ↦ inr (p, sym (get-put k j v d ∙ rw p) ∙ h)
  ]
    where
      some_inj : (a b : V) → some a ≡ some b → a ≡ b
      some_inj a b q = ground arith
