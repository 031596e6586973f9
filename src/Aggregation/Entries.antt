-- ===== src/Aggregation/Entries.antt =====
-- The transactions of an exchange as maps from ids, and what is found in several of them.
use neu_chain.Prelude.{
  ℕ, ◌≡◌, ◌≢◌, refl, sym, ap, ◌∙◌, subst, inl, inr, false, Option, none, some, List, [], ◌∷◌, ◌++◌,
  ◌==◌, ==_iff, Bool-cases, All, Pairwise, if_false, arith,
}
use neu_chain.HashMap.{find}
use neu_chain.Transaction.{Transaction}

abbrev pub Entries : Type 0
Entries = List (ℕ × Transaction)

abbrev pub DistinctKeys : Entries → Type 0
DistinctKeys = Pairwise (λ (x y : ℕ × Transaction). x.0 ≢ y.0)

-- A transaction with what its owner has found.
abbrev pub taken : Option Transaction → Option Transaction → Option Transaction
taken none o = o
taken (some t) none = none
taken (some t) (some u) = some (record u { result = t.result; rw_set = t.rw_set })

abbrev pub flat : List Entries → Entries
flat [] = []
flat (m ∷ ms) = m ++ flat ms

pub find_missing :
    (k : ℕ) (m : Entries) → All (λ (x : ℕ × Transaction). k ≢ x.0) m → find ◌==◌ k m ≡ none
unfolding find
find_missing k [] h = refl
find_missing k ((j, t) ∷ m) h = if_false (j == k) _ _ (differs j k h.0) ∙ find_missing k m h.1
  where
    differs : (j k : ℕ) → k ≢ j → (j == k) ≡ false
    differs j k h = ground arith

find-append :
    (k : ℕ) (a b : Entries)
    → find ◌==◌ k (a ++ b) ≡ elim (find ◌==◌ k a) [ none ↦ find ◌==◌ k b | some t ↦ some t ]
unfolding find
find-append k [] b = refl
find-append k ((j, t) ∷ a) b = elim (Bool-cases (j == k)) [
  | inl e ↦ rw e refl
  | inr e ↦ rw e (find-append k a b)
]

pub split_keys :
    (a b : Entries)
    → DistinctKeys (a ++ b)
    → DistinctKeys a
      × DistinctKeys b
      × All (λ (x : ℕ × Transaction). All (λ (y : ℕ × Transaction). x.0 ≢ y.0) b) a
split_keys [] b h = (tt, h, tt)
split_keys (x ∷ a) b h =
    let (da, db, cross) = split_keys a b h.1 in
    let (here, there) = parts a h.0 in ((here, da), db, (there, cross))
  where
    parts :
        (l : Entries)
        → All (λ (y : ℕ × Transaction). x.0 ≢ y.0) (l ++ b)
        → All (λ (y : ℕ × Transaction). x.0 ≢ y.0) l × All (λ (y : ℕ × Transaction). x.0 ≢ y.0) b
    parts [] k = (tt, k)
    parts (y ∷ l) k = let (p, q) = parts l k.1 in ((k.0, p), q)

find_crossed :
    (k : ℕ) (a b : Entries) (t : Transaction)
    → All (λ (x : ℕ × Transaction). All (λ (y : ℕ × Transaction). x.0 ≢ y.0) b) a
    → find ◌==◌ k a ≡ some t
    → find ◌==◌ k b ≡ none
unfolding find
find_crossed k [] b t h e = cc
find_crossed k ((j, u) ∷ a) b t h e = elim (Bool-cases (j == k)) [
  | inl same ↦
      find_missing k b
        (subst (λ i. All (λ (y : ℕ × Transaction). i ≢ y.0) b) ((==_iff j k).0 same) h.0)
  | inr other ↦ find_crossed k a b t h.1 (sym (if_false (j == k) _ _ other) ∙ e)
]

pub taken-append :
    (k : ℕ) (a b : Entries) (o : Option Transaction)
    → All (λ (x : ℕ × Transaction). All (λ (y : ℕ × Transaction). x.0 ≢ y.0) b) a
    → taken (find ◌==◌ k b) (taken (find ◌==◌ k a) o) ≡ taken (find ◌==◌ k (a ++ b)) o
taken-append k a b o h = go (find ◌==◌ k a) refl
  where
    go :
        (f : Option Transaction)
        → find ◌==◌ k a ≡ f
        → taken (find ◌==◌ k b) (taken (find ◌==◌ k a) o) ≡ taken (find ◌==◌ k (a ++ b)) o
    go none e =
        ap (λ x. taken (find ◌==◌ k b) (taken x o)) e
        ∙ ap (λ x. taken x o)
            (sym
              (find-append k a b ∙ ap (λ x. elim x [ none ↦ find ◌==◌ k b | some t ↦ some t ]) e))
    go (some t) e =
        ap (λ x. taken x (taken (find ◌==◌ k a) o)) (find_crossed k a b t h e)
        ∙ ap (λ x. taken x o)
            (e
              ∙ sym (
                  find-append k a b
                  ∙ ap (λ x. elim x [ none ↦ find ◌==◌ k b | some t ↦ some t ]) e))
