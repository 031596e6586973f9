-- ===== src/Serial/Progress.antt =====
-- An epoch that reserves anything commits something: its smallest id conflicts with nothing.
use neu_chain.Prelude.{
  ℕ, ◌≤◌, ◌≡◌, ◌≢◌, refl, subst, Bool, true, false, ◌⊎◌, inl, inr, List, [], ◌∷◌, Bool-cases, All,
  All-map_lem, All-In, In, In-keep, Key, arith,
}
use neu_chain.RwSet.{KvRwSet, read_keys, write_keys}
use neu_chain.ReserveTable.Min.{Batch, HasIds}
use neu_chain.ReserveTable.Exact.{Conflict, dependency_analysis-exact}
use neu_chain.Decision.{decide}
use neu_chain.Serial.{Entry}
use neu_chain.Serial.Conflicts.{lets_commit, dependency, committed}

IsLeast : Batch → Entry → Type 0
IsLeast b x = In x b × All (λ y. x.0 ≤ y.0) b

least : (x : Entry) (b : Batch) → (y : Entry) × IsLeast (x ∷ b) y
unfolding IsLeast
least x [] = (x, (inl refl, (omega arith, tt)))
least x (z ∷ b) =
    let (y, (i, l)) = least z b in
    elim (le-cases x.0 y.0) [
      | inl h ↦ (x, (inl refl, (omega arith, All-map_lem _ _ (z ∷ b) (λ w k. omega arith) l)))
      | inr h ↦ (y, (inr i, (h, l)))
    ]
  where
    le-cases : (m n : ℕ) → (m ≤ n) ⊎ (n ≤ m)
    le-cases m n = omega arith

no-Conflict :
    (keys : KvRwSet → List Key) (b : Batch) (x : Entry) (mine : List Key)
    → IsLeast b x
    → ¬ Conflict keys b x.0 mine
unfolding IsLeast
no-Conflict keys b x mine l (k, i, (e, j, lt, c)) =
    let h = All-In (λ y. x.0 ≤ y.0) e b l.1 j in absurd (omega arith)

is_false : (f : Bool) (A : Type 0) → (f ≡ true → A) → ¬ A → f ≡ false
is_false f A h n = elim (Bool-cases f) [ inl e ↦ absurd (n (h e)) | inr e ↦ e ]

-- Of a batch that is not empty, with ids other than 0, at least one entry commits: the one with
-- the smallest id.
pub committed-ne-nil : (epoch : ℕ) (b : Batch) → HasIds b → b ≢ [] → committed epoch b ≢ []
unfolding committed dependency decide IsLeast
committed-ne-nil epoch [] ids ne h = ne refl
committed-ne-nil epoch (x ∷ b) ids ne h =
    let (y, l) = least x b in
    let (waw, war, raw) = dependency_analysis-exact (x ∷ b) epoch y.0 y.1 ids in
    let a = is_false _ _ waw.0 (no-Conflict write_keys (x ∷ b) y (write_keys y.1) l) in
    let r = is_false _ _ war.0 (no-Conflict read_keys (x ∷ b) y (write_keys y.1) l) in
    subst (In y) h
      (In-keep (λ e. lets_commit (decide (dependency epoch (x ∷ b) e))) y (x ∷ b) l.0 (rw (a, r)))
