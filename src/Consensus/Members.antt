-- ===== src/Consensus/Members.antt =====
-- Sets of server names: who is in a set after an insertion, and that a set names nobody twice.
use text.Mathlib.TextEquality.{eq_iff}
use neu_chain.Prelude.{
  ℕ, zero, suc, ◌+◌, ◌≡◌, ◌≢◌, refl, sym, ap, ◌∙◌, subst, ◌⊎◌, inl, inr, true, false, ◌&&◌, List,
  [], ◌∷◌, String, str_eq, ltb, leb, ◌==◌, ==_iff, ◌++◌, ◌≤◌, ◌<◌, length, length-append,
  In-append_split, In-append_left, In-append_right, if◌then◌else◌, Bool-cases, All, In, Pairwise,
  if_true, if_false, arith,
}
use neu_chain.Orm.{has_key}
use neu_chain.HashMap.Refines.{value_or, find-put}
use neu_chain.Consensus.{
  ProxyBlock, ControlBlock, new_proxy_block, insert_member, set_at, proxy_of, set_proxy,
  approve_from,
}

abbrev pub Distinct {ℓ} : {A : Type ℓ} → List A → Type ℓ
Distinct = Pairwise (λ a b. a ≢ b)

has_key-In : (k : String) (l : List String) → has_key k l ≡ true → In k l
has_key-In k [] h = cc
has_key-In k (j ∷ l) h = elim (Bool-cases (str_eq j k)) [
  | inl e ↦ inl (sym ((eq_iff j k).0 e))
  | inr e ↦ inr (has_key-In k l (sym (if_false (str_eq j k) _ _ e) ∙ h))
]

has_key-not : (k : String) (l : List String) → has_key k l ≡ false → All (λ x. k ≢ x) l
has_key-not k [] h = tt
has_key-not k (j ∷ l) h = elim (Bool-cases (str_eq j k)) [
  | inl e ↦ absurd_true (sym (if_true (str_eq j k) _ _ e) ∙ h)
  | inr e ↦ (
    λ p. ground (arith, (eq_iff j k).1 (sym p)),
    has_key-not k l (sym (if_false (str_eq j k) _ _ e) ∙ h),
  )
]
  where
    absurd_true : true ≡ false → (k ≢ j) × All (λ x. k ≢ x) l
    absurd_true p = cc

pub In-insert_member :
    (x k : String) (l : List String) → In x (insert_member k l) → (x ≡ k) ⊎ In x l
In-insert_member x k l h = elim (Bool-cases (has_key k l)) [
  | inl e ↦ inr (subst (In x) (if_true (has_key k l) _ _ e) h)
  | inr e ↦ subst (In x) (if_false (has_key k l) _ _ e) h
]

pub insert_member_self : (k : String) (l : List String) → In k (insert_member k l)
insert_member_self k l = elim (Bool-cases (has_key k l)) [
  | inl e ↦ subst (In k) (sym (if_true (has_key k l) _ _ e)) (has_key-In k l e)
  | inr e ↦ subst (In k) (sym (if_false (has_key k l) _ _ e)) (inl refl)
]

pub insert_member-kept : (x k : String) (l : List String) → In x l → In x (insert_member k l)
insert_member-kept x k l h = elim (Bool-cases (has_key k l)) [
  | inl e ↦ subst (In x) (sym (if_true (has_key k l) _ _ e)) h
  | inr e ↦ subst (In x) (sym (if_false (has_key k l) _ _ e)) (inr h)
]

pub insert_member-Distinct :
    (k : String) (l : List String) → Distinct l → Distinct (insert_member k l)
insert_member-Distinct k l h = elim (Bool-cases (has_key k l)) [
  | inl e ↦ subst Distinct (sym (if_true (has_key k l) _ _ e)) h
  | inr e ↦ subst Distinct (sym (if_false (has_key k l) _ _ e)) (has_key-not k l e, h)
]

-- What stands in the map of proxies after one has been given anew.
pub proxy_of-set_proxy :
    (k j : String) (b : ProxyBlock) (s : ControlBlock)
    → proxy_of j (set_proxy k b s) ≡ (if str_eq k j then b else proxy_of j s)
proxy_of-set_proxy k j b s =
    ap (value_or new_proxy_block) (find-put str_eq eq_iff k j b s.proxies_timeout)
    ∙ elim (Bool-cases (str_eq k j)) [ inl e ↦ rw e refl | inr e ↦ rw e refl ]

-- The loop inserts a name from the given epoch on.
pub approve_from_lem :
    (k : String) (rounds i e : ℕ) (m : ℕ → List String)
    → approve_from k rounds i m e
      ≡ (if leb i e && ltb e (i + rounds) then insert_member k (m e) else m e)
unfolding approve_from
approve_from_lem k zero i e m = ground arith
approve_from_lem k (suc rounds) i e m =
    approve_from_lem k rounds (suc i) e (set_at i (insert_member k (m i)) m)
    ∙ elim (Bool-cases (i == e)) [
      | inl p ↦
          if_false (leb (suc i) e && ltb e (suc i + rounds)) _ _ (past p)
          ∙ if_true (i == e) _ _ p
          ∙ ap (λ x. insert_member k (m x)) ((==_iff i e).0 p)
          ∙ sym (if_true (leb i e && ltb e (i + suc rounds)) _ _ (first p))
      | inr p ↦
          ap (λ l. if leb (suc i) e && ltb e (suc i + rounds) then insert_member k l else l)
            (if_false (i == e) (insert_member k (m i)) (m e) p)
          ∙ ap (λ c. if c then insert_member k (m e) else m e) (later p)
    ]
  where
    past : (i == e) ≡ true → (leb (suc i) e && ltb e (suc i + rounds)) ≡ false
    past p = ground arith

    first : (i == e) ≡ true → (leb i e && ltb e (i + suc rounds)) ≡ true
    first p = ground arith

    later :
        (i == e) ≡ false
        → (leb (suc i) e && ltb e (suc i + rounds)) ≡ (leb i e && ltb e (i + suc rounds))
    later p = ground arith

In-split :
    (k : String) (l : List String)
    → In k l
    → (a : List String) × (b : List String) × (l ≡ a ++ k ∷ b)
In-split k (j ∷ l) (inl e) = ([], l, ap (λ x. x ∷ l) (sym e))
In-split k (j ∷ l) (inr i) = let (a, b, e) = In-split k l i in (j ∷ a, b, ap (λ m. j ∷ m) e)
In-split k [] i = absurd i

-- Different names that all stand in a list are no more than the list has.
Distinct-length : (l m : List String) → Distinct l → All (λ x. In x m) l → length l ≤ length m
Distinct-length [] m d h = omega arith
Distinct-length (x ∷ l) m d h =
    let (a, b, e) = In-split x m h.0 in
    let shorter =
      Distinct-length l (a ++ b) d.1
        (without x l a b d.0 (subst (λ k. All (λ y. In y k) l) e h.1)) in
    subst (λ k. suc (length l) ≤ length k) (sym e)
      (omega (arith, length-append a (x ∷ b), length-append a b))
  where
    without :
        (x : String) (l a b : List String)
        → All (λ y. x ≢ y) l
        → All (λ y. In y (a ++ x ∷ b)) l
        → All (λ y. In y (a ++ b)) l
    without x [] a b d h = tt
    without x (y ∷ l) a b d h = (
      elim (In-append_split y a (x ∷ b) h.0) [
        | inl i ↦ In-append_left y a b i
        | inr (inl e) ↦ absurd (d.0 (sym e))
        | inr (inr i) ↦ In-append_right y a b i
      ],
      without x l a b d.1 h.1,
    )

-- Among more different names than a list has, one does not stand in it.
pub one_outside :
    (l bad : List String)
    → Distinct l
    → length bad < length l
    → (x : String) × In x l × (¬ In x bad)
one_outside l bad d h = elim (search_outside l) [
  | inl all ↦ absurd (omega (arith, Distinct-length l bad d all))
  | inr found ↦ found
]
  where
    not_in : (x : String) → has_key x bad ≡ false → ¬ In x bad
    not_in x e i = elim_all bad (has_key-not x bad e) i
      where
        elim_all : (m : List String) → All (λ y. x ≢ y) m → In x m → ⊥
        elim_all (y ∷ m) a (inl p) = a.0 p
        elim_all (y ∷ m) a (inr j) = elim_all m a.1 j
        elim_all [] a j = j

    search_outside :
        (m : List String) → All (λ y. In y bad) m ⊎ ((x : String) × In x m × (¬ In x bad))
    search_outside [] = inl tt
    search_outside (y ∷ m) = elim (Bool-cases (has_key y bad)) [
      | inr e ↦ inr (y, inl refl, not_in y e)
      | inl e ↦ elim (search_outside m) [
        | inl all ↦ inl (has_key-In y bad e, all)
        | inr (x, at, out) ↦ inr (x, inr at, out)
      ]
    ]
