-- ===== src/MvccHashMap/Meaning.antt =====
-- What the operations of `MVCCHashMap` mean for the versions of a key: which version each finds, and
-- what is left of the list.
use neu_chain.Prelude.{
  ℕ, ◌≡◌, refl, ap, ◌∙◌, ◌↔◌, ◌⊎◌, inl, inr, Bool, true, false, not, none, some, [], ◌∷◌, ◌++◌,
  String, str_eq, length, if_true, if_false, Bool-cases,
}
use neu_chain.HashMap.Refines.{value_or}
use neu_chain.MvccHashMap.{
  Versions, MvccHashMap, str_ltb, is_empty, has_version, erase_version, version_value, older_value,
  store_version, keep_latest, contains_key, contains_key_version, remove_key, remove_key_version,
  insert_key_version_holder, version_count, get_key_version, get_key_version_prev, set_key_version,
  vacuum_key_keep_latest,
}
use neu_chain.MvccHashMap.Refines.{is_some, versions, Changes, versions-each}
use neu_chain.MvccHashMap.Loops.{
  Absent, FirstAt, first-cases, loops-miss, loops-hit, older-miss, older-hit,
}

module _ {K V : Type 0} (eq : K → K → Bool) (eq_iff : (a b : K) → (eq a b ≡ true) ↔ (a ≡ b))
    (hash : K → ℕ) (n : ℕ) where
  module _ (k : K) (v : String) (x : V) (h : MvccHashMap K V) where
    abbrev of_key : MvccHashMap K V → Versions V
    of_key = versions eq eq_iff hash n k

    -- What the operations on one version do, where the key does not have it, and where it does.
    abbrev pub AtVersion : Type 0
    AtVersion =
        (Absent (λ u. str_eq u v) (of_key h)
          × (contains_key_version eq hash n k v h ≡ false)
          × (get_key_version eq hash n k v h ≡ none)
          × ((remove_key_version eq hash n k v h).0 ≡ false)
          × (of_key (remove_key_version eq hash n k v h).1 ≡ of_key h)
          × (of_key (set_key_version eq hash n k v x h) ≡ of_key h))
        ⊎ ((f : FirstAt (λ u. str_eq u v) (of_key h)) × (contains_key_version eq hash n k v h
              ≡ true)
            × (get_key_version eq hash n k v h ≡ some f.value)
            × ((remove_key_version eq hash n k v h).0 ≡ true)
            × (of_key (remove_key_version eq hash n k v h).1 ≡ f.before ++ f.after)
            × (of_key (set_key_version eq hash n k v x h) ≡ f.before ++ (f.version, x) ∷ f.after))

    -- What is found below a version.
    abbrev pub AtOlder : Type 0
    AtOlder =
        (Absent (λ u. str_ltb u v) (of_key h) × (get_key_version_prev eq hash n k v h ≡ none))
        ⊎ ((f : FirstAt (λ u. str_ltb u v) (of_key h)) × (get_key_version_prev eq hash n k v h
              ≡ some f.value))

    -- What the operations on a key do, where it has no version, and where it has a newest one.
    abbrev pub AtKey : Type 0
    AtKey =
        ((of_key h ≡ [])
          × (contains_key eq hash n k h ≡ false)
          × (of_key (vacuum_key_keep_latest eq hash n k h).1 ≡ [])
          × ((vacuum_key_keep_latest eq hash n k h).0 ≡ 0))
        ⊎ ((newest : String × V) × (rest : Versions V) × (of_key h ≡ newest ∷ rest)
            × (contains_key eq hash n k h ≡ true)
            × (of_key (vacuum_key_keep_latest eq hash n k h).1 ≡ newest ∷ [])
            × ((vacuum_key_keep_latest eq hash n k h).0 ≡ length rest))

    self : eq k k ≡ true
    self = (eq_iff k k).1 refl

    own : Changes eq eq_iff hash n k k v x h
    own = (versions-each eq eq_iff hash n k k v x h).1

    at_version : AtVersion
    at_version =
        let a = (versions-each eq eq_iff hash n k k v x h).0 in
        let (removed, answer) = own.remove_version in
        elim (first-cases (λ u. str_eq u v) (of_key h)) [
          | inl absent ↦
              let (has, value, erased, stored) = loops-miss v x (of_key h) absent in
              inl (
                absent,
                a.this_version ∙ has,
                a.value ∙ value,
                answer ∙ ap is_some erased,
                removed ∙ if_true (eq k k) _ _ self ∙ ap (value_or (of_key h)) erased,
                own.store ∙ if_true (eq k k) _ _ self ∙ stored,
              )
          | inr f ↦
              let (has, value, erased, stored) =
                loops-hit v x f.before f.version f.value f.after f.none_before f.passes in
              let gone = ap (erase_version v) f.splits ∙ erased in
              inr (
                f,
                a.this_version ∙ ap (has_version v) f.splits ∙ has,
                a.value ∙ ap (version_value v) f.splits ∙ value,
                answer ∙ ap is_some gone,
                removed ∙ if_true (eq k k) _ _ self ∙ ap (value_or (of_key h)) gone,
                own.store ∙ if_true (eq k k) _ _ self ∙ ap (store_version v x) f.splits ∙ stored,
              )
        ]

    at_older : AtOlder
    at_older =
        let a = (versions-each eq eq_iff hash n k k v x h).0 in
        elim (first-cases (λ u. str_ltb u v) (of_key h)) [
          | inl absent ↦ inl (absent, a.older ∙ older-miss v (of_key h) absent)
          | inr f ↦ inr (
            f,
            a.older
                ∙ ap (older_value v) f.splits
                ∙ older-hit v f.before f.version f.value f.after f.none_before f.passes,
          )
        ]

    at_key : AtKey
    unfolding keep_latest
    at_key = by_list (of_key h) refl
      where
        kept :
            (l : Versions V)
            → of_key h ≡ l
            → (of_key (vacuum_key_keep_latest eq hash n k h).1 ≡ (keep_latest l).1)
              × ((vacuum_key_keep_latest eq hash n k h).0 ≡ (keep_latest l).0)
        kept l e = (
          own.latest.0 ∙ if_true (eq k k) _ _ self ∙ ap (λ m. (keep_latest m).1) e,
          own.latest.1 ∙ ap (λ m. (keep_latest m).0) e,
        )

        has_some : (l : Versions V) → of_key h ≡ l → contains_key eq hash n k h ≡ not (is_empty l)
        has_some l e =
            (versions-each eq eq_iff hash n k k v x h).0.some_version ∙ ap (λ m. not (is_empty m)) e

        by_list : (l : Versions V) → of_key h ≡ l → AtKey
        by_list [] e = inl (e, has_some [] e, (kept [] e).0, (kept [] e).1)
        by_list (y ∷ rest) e =
            inr (y, rest, e, has_some (y ∷ rest) e, (kept (y ∷ rest) e).0, (kept (y ∷ rest) e).1)

  -- What a change of one key leaves of another.
  abbrev pub KeepsOther : K → K → String → V → MvccHashMap K V → Type 0
  KeepsOther k j v x h =
      let of = versions eq eq_iff hash n j in
      (of (remove_key eq hash n k h).1 ≡ of h)
      × (of (remove_key_version eq hash n k v h).1 ≡ of h)
      × (of (insert_key_version_holder eq hash n x k v h) ≡ of h)
      × (of (set_key_version eq hash n k v x h) ≡ of h)
      × (of (vacuum_key_keep_latest eq hash n k h).1 ≡ of h)

  keeps_other :
      (k j : K) (v : String) (x : V) (h : MvccHashMap K V) → (eq k j ≡ true) ⊎ KeepsOther k j v x h
  keeps_other k j v x h =
      let c = (versions-each eq eq_iff hash n k j v x h).1 in
      elim (Bool-cases (eq k j)) [
        | inl same ↦ inl same
        | inr other ↦ inr (
          c.remove ∙ if_false (eq k j) _ _ other,
          c.remove_version.0 ∙ if_false (eq k j) _ _ other,
          c.insert ∙ if_false (eq k j) _ _ other,
          c.store ∙ if_false (eq k j) _ _ other,
          c.latest.0 ∙ if_false (eq k j) _ _ other,
        )
      ]

  -- `MVCCHashMap` is a map from keys to lists of versions, the newest first, whatever the hash
  -- function and the number of parts. What is asked of one version is answered by the first one of
  -- the list that is equal to it: the value is found, replaced, or taken out with the version, and
  -- all others stay in their order; without one, nothing is found or changed. The value below a
  -- version is that of the first one in the list that is less. Keeping the latest leaves just the
  -- first one, and returns how many others there were. A new version stands in front, removing a key
  -- leaves none, and no change of one key changes the versions of another.
  pub versions-Mapped :
      (k j : K) (v : String) (x : V) (h : MvccHashMap K V)
      → AtVersion k v x h
        × AtOlder k v x h
        × AtKey k v x h
        × (version_count eq hash n k h ≡ length (versions eq eq_iff hash n k h))
        × (versions eq eq_iff hash n k (insert_key_version_holder eq hash n x k v h)
            ≡ (v, x) ∷ versions eq eq_iff hash n k h)
        × (versions eq eq_iff hash n k (remove_key eq hash n k h).1 ≡ [])
        × ((eq k j ≡ true) ⊎ KeepsOther k j v x h)
  versions-Mapped k j v x h =
      let c = own k v x h in
      (
        at_version k v x h,
        at_older k v x h,
        at_key k v x h,
        (versions-each eq eq_iff hash n k k v x h).0.count,
        c.insert ∙ if_true (eq k k) _ _ (self k v x h),
        c.remove ∙ if_true (eq k k) _ _ (self k v x h),
        keeps_other k j v x h,
      )
