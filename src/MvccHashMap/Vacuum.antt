-- ===== src/MvccHashMap/Vacuum.antt =====
-- What `vacuum_key_versions` erases: it goes from the last version to the first, and stops at one
-- that is equal to the given version.
use mathlib.Core.List.{reverse, reverse-append, reverse-cons, reverse-reverse}
use neu_chain.Prelude.{
  ℕ, suc, ◌≡◌, refl, sym, ap, ◌∙◌, ◌⊎◌, inl, inr, Bool, true, false, [], ◌∷◌, ◌++◌, String, str_eq,
  length, length-append, All, All-push, subst, ◌↔◌, Bool-cases, if_true, if_false, arith,
}
use mathlib.Core.Path.{ap₂}
use neu_chain.MvccHashMap.{
  Versions, MvccHashMap, erase_others, vacuum_versions, vacuum_key_versions,
}
use neu_chain.MvccHashMap.Refines.{versions, vacuum_lem}

module _ {V : Type 0} where
  abbrev pub IsOther : String → (String × V) → Type 0
  IsOther v x = str_eq x.0 v ≡ false

  -- The list ends with the version, or is empty.
  abbrev pub StopsAt : String → Versions V → Type 0
  StopsAt v kept =
      (kept ≡ [])
      ⊎ ((front : Versions V) × (x : String × V) × (kept ≡ front ++ x ∷ []) × (str_eq x.0 v ≡ true))

  pub record Vacuumed (v : String) (l : Versions V) (r : ℕ × Versions V) : Type 0 where
    pub erased : Versions V
    pub split : l ≡ r.1 ++ erased
    pub others : All (IsOther v) erased
    pub size : r.0 ≡ length erased
    pub stops : StopsAt v r.1

  record Begins (v : String) (l : Versions V) (r : ℕ × Versions V) : Type 0 where
    pub erased : Versions V
    pub split : l ≡ erased ++ r.1
    pub others : All (IsOther v) erased
    pub size : r.0 ≡ length erased
    pub stops :
        (r.1 ≡ [])
        ⊎ ((x : String × V) × (rest : Versions V) × (r.1 ≡ x ∷ rest) × (str_eq x.0 v ≡ true))

  erase_others-Begins : (v : String) (l : Versions V) → Begins v l (erase_others v l)
  unfolding erase_others
  erase_others-Begins v [] = record {
    erased = [];
    split = refl;
    others = tt;
    size = refl;
    stops = inl refl;
  }
  erase_others-Begins v ((u, x) ∷ l) = elim (Bool-cases (str_eq u v)) [
    | inl e ↦ rw e (record {
      erased = [];
      split = refl;
      others = tt;
      size = refl;
      stops = inr ((u, x), l, refl, e);
    })
    | inr e ↦
        let b = erase_others-Begins v l in
        rw e (record {
          erased = (u, x) ∷ b.erased;
          split = ap (λ m. (u, x) ∷ m) b.split;
          others = (e, b.others);
          size = ap suc b.size;
          stops = b.stops;
        })
  ]

  All-reverse : (P : String × V → Type 0) (l : Versions V) → All P l → All P (reverse l)
  All-reverse P [] h = tt
  All-reverse P (x ∷ l) h =
      subst (All P) (sym (reverse-cons x l)) (All-push P x (reverse l) (All-reverse P l h.1) h.0)

  length-reverse_lem : (l : Versions V) → length (reverse l) ≡ length l
  length-reverse_lem [] = refl
  length-reverse_lem (x ∷ l) =
      ap length (reverse-cons x l)
      ∙ length-append (reverse l) (x ∷ [])
      ∙ omega (arith, length-reverse_lem l)

  vacuum_versions-Vacuumed : (v : String) (l : Versions V) → Vacuumed v l (vacuum_versions v l)
  unfolding vacuum_versions
  vacuum_versions-Vacuumed v l =
      let b = erase_others-Begins v (reverse l) in
      let kept = (erase_others v (reverse l)).1 in
      record {
        erased = reverse b.erased;
        split = sym (reverse-reverse l) ∙ ap reverse b.split ∙ reverse-append b.erased kept;
        others = All-reverse (IsOther v) b.erased b.others;
        size = b.size ∙ sym (length-reverse_lem b.erased);
        stops = elim b.stops [
          | inl e ↦ inl (ap reverse e)
          | inr (x, rest, e, same) ↦ inr (reverse rest, x, ap reverse e ∙ reverse-cons x rest, same)
        ];
      }

module _ {K V : Type 0} (eq : K → K → Bool) (eq_iff : (a b : K) → (eq a b ≡ true) ↔ (a ≡ b))
    (hash : K → ℕ) (n : ℕ) where
  -- `vacuum_key_versions` erases, of the versions of its key, all behind the last one that is equal to
  -- the given version, and all if none is: those that it erases are other versions, it returns their
  -- number, and what is left keeps its order and ends with the given version or is empty. All other
  -- keys keep their versions.
  pub vacuum_key_versions-Vacuumed :
      (k j : K) (v : String) (h : MvccHashMap K V)
      → (let (size, h') = vacuum_key_versions eq hash n k v h in
          Vacuumed v (versions eq eq_iff hash n k h) (size, versions eq eq_iff hash n k h')
          × (eq k j ≡ false → versions eq eq_iff hash n j h' ≡ versions eq eq_iff hash n j h))
  vacuum_key_versions-Vacuumed k j v h =
      let at = vacuum_lem eq eq_iff hash n k k h v in
      let same = (eq_iff k k).1 refl in
      (
        subst (Vacuumed v (versions eq eq_iff hash n k h))
            (sym (ap₂ (λ a b. (a, b)) at.1 (at.0 ∙ if_true (eq k k) _ _ same)))
            (vacuum_versions-Vacuumed v (versions eq eq_iff hash n k h)),
        λ other. (vacuum_lem eq eq_iff hash n k j h v).0 ∙ if_false (eq k j) _ _ other,
      )
