-- ===== src/MvccHashMap/Refines.antt =====
-- Every operation of `MVCCHashMap` does to the versions of its key what its name says.
use neu_chain.Prelude.{
  ℕ, ◌≡◌, refl, sym, ap, ◌∙◌, ◌↔◌, inl, inr, Bool, true, false, not, Option, none, some, [], ◌∷◌,
  String, length, if◌then◌else◌, Bool-cases, Option-cases,
}
use neu_chain.HashMap.Refines.{find-erase, find-put, lookup-set_map, value_or}
use neu_chain.MvccHashMap.{
  Versions, MvccHashMap, is_empty, has_version, erase_version, version_value, older_value,
  store_version, vacuum_versions, keep_latest, versions?, set_versions, contains_key,
  contains_key_version, remove_key, remove_key_version, insert_key_version_holder, version_count,
  get_key_version, get_key_version_prev, set_key_version, vacuum_key_versions,
  vacuum_key_keep_latest,
}

abbrev pub is_some : {A : Type 0} → Option A → Bool
is_some none = false
is_some (some a) = true

module _ {K V : Type 0} (eq : K → K → Bool) (eq_iff : (a b : K) → (eq a b ≡ true) ↔ (a ≡ b))
    (hash : K → ℕ) (n : ℕ) where
  -- The versions of a key, none where it is missing.
  abbrev pub versions : K → MvccHashMap K V → Versions V
  versions k h = value_or [] (versions? eq hash n k h)

  pub versions-set_versions :
      (k j : K) (l : Versions V) (h : MvccHashMap K V)
      → versions j (set_versions eq hash n k l h) ≡ (if eq k j then l else versions j h)
  versions-set_versions k j l h =
      ap (value_or [])
        (lookup-set_map eq eq_iff hash n k j h _ (some l) (λ i. find-put eq eq_iff k i l _))
      ∙ elim (Bool-cases (eq k j)) [ inl e ↦ rw e refl | inr e ↦ rw e refl ]

  module _ (k j : K) (h : MvccHashMap K V) where
    -- A list that the key has already.
    versions-kept :
        (l : Versions V) → versions k h ≡ l → versions j h ≡ (if eq k j then l else versions j h)
    versions-kept l e = elim (Bool-cases (eq k j)) [
      | inr d ↦ rw d refl
      | inl d ↦ rw d (ap (λ i. versions i h) (sym ((eq_iff k j).0 d)) ∙ e)
    ]

    remove_key_lem : versions j (remove_key eq hash n k h).1 ≡ (if eq k j then [] else versions j h)
    unfolding remove_key
    remove_key_lem = elim (Option-cases (versions? eq hash n k h)) [
      | inl e ↦ rw (e, remove_key) (versions-kept [] (ap (value_or []) e))
      | inr (l, e) ↦
          rw (e, remove_key)
            (ap (value_or [])
                (lookup-set_map eq eq_iff hash n k j h _ none (λ i. find-erase eq eq_iff k i _))
              ∙ elim (Bool-cases (eq k j)) [ inl d ↦ rw d refl | inr d ↦ rw d refl ])
    ]

    remove_key_version_lem :
        (v : String)
        → (versions j (remove_key_version eq hash n k v h).1 ≡ (
            if eq k j
            then value_or (versions k h) (erase_version v (versions k h))
            else versions j h))
          × ((remove_key_version eq hash n k v h).0 ≡ is_some (erase_version v (versions k h)))
    unfolding remove_key_version erase_version
    remove_key_version_lem v = elim (Option-cases (versions? eq hash n k h)) [
      | inl e ↦ (
        rw (e, remove_key_version) (versions-kept [] (ap (value_or []) e)),
        rw (e, remove_key_version) refl,
      )
      | inr (l, e) ↦ elim (Option-cases (erase_version v l)) [
        | inl f ↦ (
          rw (e, remove_key_version)
              (rw (f, remove_key_version) (versions-kept l (ap (value_or []) e))),
          rw (e, remove_key_version) (rw f refl),
        )
        | inr (l', f) ↦ (
          rw (e, remove_key_version) (rw (f, remove_key_version) (versions-set_versions k j l' h)),
          rw (e, remove_key_version) (rw f refl),
        )
      ]
    ]

    pub insert_lem :
        (default : V) (v : String)
        → versions j (insert_key_version_holder eq hash n default k v h)
          ≡ (if eq k j then (v, default) ∷ versions k h else versions j h)
    unfolding insert_key_version_holder
    insert_lem default v = elim (Option-cases (versions? eq hash n k h)) [
      | inl e ↦ rw (e, insert_key_version_holder) (versions-set_versions k j _ h)
      | inr (l, e) ↦ rw (e, insert_key_version_holder) (versions-set_versions k j _ h)
    ]

    pub set_lem :
        (v : String) (x : V)
        → versions j (set_key_version eq hash n k v x h)
          ≡ (if eq k j then store_version v x (versions k h) else versions j h)
    unfolding set_key_version store_version
    set_lem v x = elim (Option-cases (versions? eq hash n k h)) [
      | inl e ↦ rw (e, set_key_version) (versions-kept [] (ap (value_or []) e))
      | inr (l, e) ↦ rw (e, set_key_version) (versions-set_versions k j _ h)
    ]

    pub vacuum_lem :
        (v : String)
        → (versions j (vacuum_key_versions eq hash n k v h).1
            ≡ (if eq k j then (vacuum_versions v (versions k h)).1 else versions j h))
          × ((vacuum_key_versions eq hash n k v h).0 ≡ (vacuum_versions v (versions k h)).0)
    unfolding vacuum_key_versions vacuum_versions
    vacuum_lem v = elim (Option-cases (versions? eq hash n k h)) [
      | inl e ↦ (
        rw (e, vacuum_key_versions) (versions-kept [] (ap (value_or []) e)),
        rw (e, vacuum_key_versions) refl,
      )
      | inr (l, e) ↦ (
        rw (e, vacuum_key_versions) (versions-set_versions k j _ h),
        rw (e, vacuum_key_versions) refl,
      )
    ]

    keep_latest_lem :
        (versions j (vacuum_key_keep_latest eq hash n k h).1
          ≡ (if eq k j then (keep_latest (versions k h)).1 else versions j h))
        × ((vacuum_key_keep_latest eq hash n k h).0 ≡ (keep_latest (versions k h)).0)
    unfolding vacuum_key_keep_latest keep_latest
    keep_latest_lem = elim (Option-cases (versions? eq hash n k h)) [
      | inl e ↦ (
        rw (e, vacuum_key_keep_latest) (versions-kept [] (ap (value_or []) e)),
        rw (e, vacuum_key_keep_latest) refl,
      )
      | inr (l, e) ↦ (
        rw (e, vacuum_key_keep_latest) (versions-set_versions k j _ h),
        rw (e, vacuum_key_keep_latest) refl,
      )
    ]

  module _ (k : K) (h : MvccHashMap K V) where
    pub get_key_version_lem :
        (v : String) → get_key_version eq hash n k v h ≡ version_value v (versions k h)
    unfolding get_key_version version_value
    get_key_version_lem v = elim (Option-cases (versions? eq hash n k h)) [
      | inl e ↦ rw (e, get_key_version) refl
      | inr (l, e) ↦ rw (e, get_key_version) refl
    ]

    contains_key_lem : contains_key eq hash n k h ≡ not (is_empty (versions k h))
    unfolding contains_key
    contains_key_lem = elim (Option-cases (versions? eq hash n k h)) [
      | inl e ↦ rw (e, contains_key) refl
      | inr (l, e) ↦ rw (e, contains_key) refl
    ]

    contains_key_version_lem :
        (v : String) → contains_key_version eq hash n k v h ≡ has_version v (versions k h)
    unfolding contains_key_version has_version
    contains_key_version_lem v = elim (Option-cases (versions? eq hash n k h)) [
      | inl e ↦ rw (e, contains_key_version) refl
      | inr (l, e) ↦ rw (e, contains_key_version) refl
    ]

    version_count_lem : version_count eq hash n k h ≡ length (versions k h)
    unfolding version_count
    version_count_lem = elim (Option-cases (versions? eq hash n k h)) [
      | inl e ↦ rw (e, version_count) refl
      | inr (l, e) ↦ rw (e, version_count) refl
    ]

    get_key_version_prev_lem :
        (v : String) → get_key_version_prev eq hash n k v h ≡ older_value v (versions k h)
    unfolding get_key_version_prev older_value
    get_key_version_prev_lem v = elim (Option-cases (versions? eq hash n k h)) [
      | inl e ↦ rw (e, get_key_version_prev) refl
      | inr (l, e) ↦ rw (e, get_key_version_prev) refl
    ]

    -- What is asked of the map is answered by the versions of the key.
    pub record Answers (v : String) : Type 0 where
      pub some_version : contains_key eq hash n k h ≡ not (is_empty (versions k h))
      pub this_version : contains_key_version eq hash n k v h ≡ has_version v (versions k h)
      pub count : version_count eq hash n k h ≡ length (versions k h)
      pub value : get_key_version eq hash n k v h ≡ version_value v (versions k h)
      pub older : get_key_version_prev eq hash n k v h ≡ older_value v (versions k h)

  -- What a change does to the versions of any key.
  pub record Changes (k j : K) (v : String) (x : V) (h : MvccHashMap K V) : Type 0 where
    pub remove : versions j (remove_key eq hash n k h).1 ≡ (if eq k j then [] else versions j h)
    pub remove_version :
        (versions j (remove_key_version eq hash n k v h).1 ≡ (
          if eq k j
          then value_or (versions k h) (erase_version v (versions k h))
          else versions j h))
        × ((remove_key_version eq hash n k v h).0 ≡ is_some (erase_version v (versions k h)))
    pub insert :
        versions j (insert_key_version_holder eq hash n x k v h)
        ≡ (if eq k j then (v, x) ∷ versions k h else versions j h)
    pub store :
        versions j (set_key_version eq hash n k v x h)
        ≡ (if eq k j then store_version v x (versions k h) else versions j h)
    pub latest :
        (versions j (vacuum_key_keep_latest eq hash n k h).1
          ≡ (if eq k j then (keep_latest (versions k h)).1 else versions j h))
        × ((vacuum_key_keep_latest eq hash n k h).0 ≡ (keep_latest (versions k h)).0)

  -- `MVCCHashMap` is a map from keys to lists of versions, whatever the hash function and the number
  -- of parts: what is asked of it is answered by the list of the key alone, and a change of one key
  -- does to its list what the loop over that list does, returns what that loop returns, and keeps
  -- the lists of all other keys. A new version stands at the front of the list.
  pub versions-each :
      (k j : K) (v : String) (x : V) (h : MvccHashMap K V) → Answers k h v × Changes k j v x h
  versions-each k j v x h = (
    record {
      some_version = contains_key_lem k h;
      this_version = contains_key_version_lem k h v;
      count = version_count_lem k h;
      value = get_key_version_lem k h v;
      older = get_key_version_prev_lem k h v;
    },
    record {
      remove = remove_key_lem k j h;
      remove_version = remove_key_version_lem k j h v;
      insert = insert_lem k j h x v;
      store = set_lem k j h v x;
      latest = keep_latest_lem k j h;
    },
  )
