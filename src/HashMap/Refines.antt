-- ===== src/HashMap/Refines.antt =====
-- Every operation of `HashMap` does to the map that it stands for what its name says.
use neu_chain.Prelude.{
  ℕ, ◌%◌, ◌≡◌, refl, sym, ap, ◌∙◌, ◌↔◌, inl, inr, Bool, true, false, not, Option, none, some, List,
  [], ◌∷◌, ◌==◌, ==_iff, if◌then◌else◌, Bool-cases, Option-cases, arith,
}
use neu_chain.HashMap.{
  find, erase, put, HashMap, get_map_ref, set_map, contains, remove, insert, index, assign,
}

abbrev pub value_or : {V : Type 0} → V → Option V → V
value_or d none = d
value_or d (some v) = v

module _ {K V : Type 0} (eq : K → K → Bool) (eq_iff : (a b : K) → (eq a b ≡ true) ↔ (a ≡ b)) where
  pub find-erase :
      (k j : K) (m : List (K × V))
      → find eq j (erase eq k m) ≡ (if eq k j then none else find eq j m)
  unfolding find erase
  find-erase k j [] = elim (Bool-cases (eq k j)) [ inl e ↦ rw e refl | inr e ↦ rw e refl ]
  find-erase k j ((i, v) ∷ m) = ground (arith, find-erase k j m, eq_iff i k, eq_iff k j, eq_iff i j)

  pub find-put :
      (k j : K) (v : V) (m : List (K × V))
      → find eq j (put eq k v m) ≡ (if eq k j then some v else find eq j m)
  unfolding find
  find-put k j v m = elim (Bool-cases (eq k j)) [
    | inl e ↦ rw e refl
    | inr e ↦ rw e (find-erase k j m ∙ rw e refl)
  ]

  module _ (hash : K → ℕ) (n : ℕ) where
    -- The map that the parts stand for.
    abbrev pub lookup : HashMap K V → K → Option V
    lookup h k = find eq k (get_map_ref eq hash n k h)

    pub lookup-set_map :
        (k j : K) (h : HashMap K V) (m : List (K × V)) (x : Option V)
        → ((i : K) → find eq i m ≡ (if eq k i then x else find eq i (get_map_ref eq hash n k h)))
        → lookup (set_map eq hash n k m h) j ≡ (if eq k j then x else lookup h j)
    lookup-set_map k j h m x f = elim (Bool-cases ((hash k % n) == (hash j % n))) [
      | inl e ↦ rw e (f j ∙ ap (λ i. if eq k j then x else find eq j (h i)) ((==_iff _ _).0 e))
      | inr e ↦ rw e (rw (other e) refl)
    ]
      where
        other : ((hash k % n) == (hash j % n)) ≡ false → eq k j ≡ false
        other e = elim (Bool-cases (eq k j)) [
          | inr d ↦ d
          | inl d ↦ absurd (differ ((==_iff _ _).1 (ap (λ i. hash i % n) ((eq_iff k j).0 d))))
        ]
          where
            differ : ¬ (((hash k % n) == (hash j % n)) ≡ true)
            differ t = ground arith

    -- A map that has a value at a key is as if it had been stored there.
    pub lookup-kept :
        (k j : K) (h : HashMap K V) (x : Option V)
        → lookup h k ≡ x
        → lookup h j ≡ (if eq k j then x else lookup h j)
    lookup-kept k j h x e = elim (Bool-cases (eq k j)) [
      | inr d ↦ rw d refl
      | inl d ↦ rw d (ap (lookup h) (sym ((eq_iff k j).0 d)) ∙ e)
    ]

    remove_lem :
        (k j : K) (h : HashMap K V)
        → (lookup (remove eq hash n k h).1 j ≡ (if eq k j then none else lookup h j))
          × ((remove eq hash n k h).0 ≡ contains eq hash n k h)
    unfolding remove
    remove_lem k j h = elim (Option-cases (lookup h k)) [
      | inl e ↦ (rw (e, remove) (lookup-kept k j h none e), rw (e, remove, contains) refl)
      | inr (w, e) ↦ (
        rw (e, remove) (lookup-set_map k j h _ none (λ i. find-erase k i _)),
        rw (e, remove, contains) refl,
      )
    ]

    insert_lem :
        (k j : K) (v : V) (h : HashMap K V)
        → (lookup (insert eq hash n k v h).1 j
            ≡ (if eq k j then some (value_or v (lookup h k)) else lookup h j))
          × ((insert eq hash n k v h).0 ≡ not (contains eq hash n k h))
    unfolding insert
    insert_lem k j v h = elim (Option-cases (lookup h k)) [
      | inl e ↦ (
        rw (e, insert) (lookup-set_map k j h _ (some v) (λ i. find-put k i v _)),
        rw (e, insert, contains) refl,
      )
      | inr (w, e) ↦ (rw (e, insert) (lookup-kept k j h (some w) e), rw (e, insert, contains) refl)
    ]

    index_lem :
        (k j : K) (default : V) (h : HashMap K V)
        → (lookup (index eq hash n default k h).1 j
            ≡ (if eq k j then some (value_or default (lookup h k)) else lookup h j))
          × ((index eq hash n default k h).0 ≡ value_or default (lookup h k))
    unfolding index
    index_lem k j default h = elim (Option-cases (lookup h k)) [
      | inl e ↦ (
        rw (e, index) (lookup-set_map k j h _ (some default) (λ i. find-put k i default _)),
        rw (e, index) refl,
      )
      | inr (w, e) ↦ (rw (e, index) (lookup-kept k j h (some w) e), rw (e, index) refl)
    ]

    assign_lem :
        (k j : K) (v default : V) (h : HashMap K V)
        → lookup (assign eq hash n default k v h) j ≡ (if eq k j then some v else lookup h j)
    unfolding assign
    assign_lem k j v default h =
        let h' = (index eq hash n default k h).1 in
        lookup-set_map k j h' _ (some v) (λ i. find-put k i v _) ∙ elim (Bool-cases (eq k j)) [
          | inl d ↦ rw d refl
          | inr d ↦ rw d ((index_lem k j default h).0 ∙ rw d refl)
        ]

    -- `HashMap` is a map: whatever the hash function and the number of parts, each operation
    -- changes what is found at its key, and at no other. `remove` and `insert` say whether the key
    -- was, and was not, there; `insert` keeps a value that is there; `operator[]` stores the
    -- default value at a key that is missing, and gives what is then found.
    pub lookup-each :
        (k j : K) (v default : V) (h : HashMap K V)
        → (lookup (remove eq hash n k h).1 j ≡ (if eq k j then none else lookup h j))
          × ((remove eq hash n k h).0 ≡ contains eq hash n k h)
          × (lookup (insert eq hash n k v h).1 j
              ≡ (if eq k j then some (value_or v (lookup h k)) else lookup h j))
          × ((insert eq hash n k v h).0 ≡ not (contains eq hash n k h))
          × (lookup (index eq hash n default k h).1 j
              ≡ (if eq k j then some (value_or default (lookup h k)) else lookup h j))
          × ((index eq hash n default k h).0 ≡ value_or default (lookup h k))
          × (lookup (assign eq hash n default k v h) j ≡ (if eq k j then some v else lookup h j))
    lookup-each k j v default h =
        let (a, b) = remove_lem k j h in
        let (c, d) = insert_lem k j v h in
        let (e, f) = index_lem k j default h in (a, b, c, d, e, f, assign_lem k j v default h)
