-- ===== src/MvccHashMap/Loops.antt =====
-- Which version the loops of `MVCCHashMap` over the versions of a key find.
use neu_chain.Prelude.{
  ◌≡◌, refl, ap, ◌∙◌, ◌⊎◌, inl, inr, Bool, true, false, none, some, [], ◌∷◌, ◌++◌, String, str_eq,
  if_true, if_false, Bool-cases, All,
}
use neu_chain.MvccHashMap.{
  Versions, str_ltb, has_version, erase_version, version_value, older_value, store_version,
}

module _ {V : Type 0} where
  -- No version of a list passes a test.
  abbrev pub Absent : (String → Bool) → Versions V → Type 0
  Absent p = All (λ (a : String × V). p a.0 ≡ false)

  -- The first version, so the newest, that passes a test, between those before and behind it.
  pub record FirstAt (p : String → Bool) (l : Versions V) : Type 0 where
    pub before : Versions V
    pub version : String
    pub value : V
    pub after : Versions V
    pub splits : l ≡ before ++ (version, value) ∷ after
    pub passes : p version ≡ true
    pub none_before : Absent p before

  pub first-cases : (p : String → Bool) (l : Versions V) → Absent p l ⊎ FirstAt p l
  first-cases p [] = inl tt
  first-cases p ((u, x) ∷ l) = elim (Bool-cases (p u)) [
    | inl found ↦ inr (record {
      before = [];
      version = u;
      value = x;
      after = l;
      splits = refl;
      passes = found;
      none_before = tt;
    })
    | inr other ↦ elim (first-cases p l) [
      | inl absent ↦ inl (other, absent)
      | inr f ↦ inr (record {
        before = (u, x) ∷ f.before;
        version = f.version;
        value = f.value;
        after = f.after;
        splits = ap (λ r. (u, x) ∷ r) f.splits;
        passes = f.passes;
        none_before = (other, f.none_before);
      })
    ]
  ]

  -- The loops that look for a version.
  abbrev pub LoopsMiss : String → V → Versions V → Type 0
  LoopsMiss v x l =
      (has_version v l ≡ false)
      × (version_value v l ≡ none)
      × (erase_version v l ≡ none)
      × (store_version v x l ≡ l)

  pub loops-miss :
      (v : String) (x : V) (l : Versions V) → Absent (λ u. str_eq u v) l → LoopsMiss v x l
  unfolding has_version version_value erase_version store_version
  loops-miss v x [] h = (refl, refl, refl, refl)
  loops-miss v x ((u, y) ∷ l) h =
      let (has, value, erased, stored) = loops-miss v x l h.1 in
      (rw h.0 has, rw h.0 value, rw h.0 (rw erased refl), rw h.0 (ap (λ r. (u, y) ∷ r) stored))

  abbrev pub LoopsHit : String → V → Versions V → String → V → Versions V → Type 0
  LoopsHit v x before u y after =
      let l = before ++ (u, y) ∷ after in
      (has_version v l ≡ true)
      × (version_value v l ≡ some y)
      × (erase_version v l ≡ some (before ++ after))
      × (store_version v x l ≡ before ++ (u, x) ∷ after)

  pub loops-hit :
      (v : String) (x : V) (before : Versions V) (u : String) (y : V) (after : Versions V)
      → Absent (λ w. str_eq w v) before
      → str_eq u v ≡ true
      → LoopsHit v x before u y after
  unfolding has_version version_value erase_version store_version
  loops-hit v x [] u y after h e = (rw e refl, rw e refl, rw e refl, rw e refl)
  loops-hit v x ((w, z) ∷ before) u y after h e =
      let (has, value, erased, stored) = loops-hit v x before u y after h.1 e in
      (rw h.0 has, rw h.0 value, rw h.0 (rw erased refl), rw h.0 (ap (λ r. (w, z) ∷ r) stored))

  pub older-miss :
      (v : String) (l : Versions V) → Absent (λ u. str_ltb u v) l → older_value v l ≡ none
  unfolding older_value
  older-miss v [] h = refl
  older-miss v ((u, y) ∷ l) h = if_false (str_ltb u v) _ _ h.0 ∙ older-miss v l h.1

  pub older-hit :
      (v : String) (before : Versions V) (u : String) (y : V) (after : Versions V)
      → Absent (λ w. str_ltb w v) before
      → str_ltb u v ≡ true
      → older_value v (before ++ (u, y) ∷ after) ≡ some y
  unfolding older_value
  older-hit v [] u y after h e = if_true (str_ltb u v) _ _ e
  older-hit v ((w, z) ∷ before) u y after h e =
      if_false (str_ltb w v) _ _ h.0 ∙ older-hit v before u y after h.1 e
