-- ===== src/ReserveTable/Exchange/Result.antt =====
-- The threads on one register leave in it what they would leave one after another.
use neu_chain.Prelude.{
  ℕ, ◌≤◌, ◌≡◌, ◌≢◌, refl, ◌∙◌, subst, ◌⊎◌, inl, inr, List, [], ◌∷◌, All, All-In, arith,
}
use neu_chain.ReserveTable.{reserve_register}
use neu_chain.ReserveTable.Exchange.{finished, Thread, Shared, Reach, begin}
use neu_chain.ReserveTable.Exchange.Invariant.{
  Knows, IsSafe, Falls, ids, Comes, Reach-Inv, begin-Inv,
}

-- The threads one after another.
unfoldable pub reserve_each : List ℕ → ℕ → ℕ
unfolding reserve_register
reserve_each [] r = r
reserve_each (n ∷ ns) r = reserve_each ns (reserve_register n r)

-- The smallest of a start and some ids, where a zero is no start.
Earliest : ℕ → List ℕ → ℕ → Type 0
Earliest r tids v = Comes r tids v × Falls r v × All (λ n. (v ≢ 0) × (v ≤ n)) tids

Earliest-le : (r v w : ℕ) (tids : List ℕ) → Earliest r tids v → Earliest r tids w → v ≢ 0 → w ≤ v
unfolding Earliest
Earliest-le r v w tids (inl e, _, _) (_, f, _) h = let k = f (λ z. h (e ∙ z)) in omega arith
Earliest-le r v w tids (inr i, _, _) (_, _, a) h = (All-In _ v tids a i).1

Earliest-ne : (r v w : ℕ) (tids : List ℕ) → Earliest r tids v → Earliest r tids w → v ≢ 0 → w ≢ 0
unfolding Earliest
Earliest-ne r v w tids (inl e, _, _) (_, f, _) h = (f (λ z. h (e ∙ z))).0
Earliest-ne r v w tids (inr i, _, _) (_, _, a) h = (All-In _ v tids a i).0

Earliest-unique : (r v w : ℕ) (tids : List ℕ) → Earliest r tids v → Earliest r tids w → v ≡ w
Earliest-unique r v w tids a b = ground (
  arith,
  Earliest-le r v w tids a b,
  Earliest-le r w v tids b a,
  Earliest-ne r v w tids a b,
  Earliest-ne r w v tids b a,
)

reserve_register-Falls : (n r : ℕ) → n ≢ 0 → Falls r (reserve_register n r)
unfolding reserve_register
reserve_register-Falls n r h = ground arith

reserve_register-Knows : (n r : ℕ) → n ≢ 0 → (reserve_register n r ≢ 0) × (reserve_register n r ≤ n)
unfolding reserve_register
reserve_register-Knows n r h = ground arith

reserve_register-cases : (n r : ℕ) → (reserve_register n r ≡ r) ⊎ (reserve_register n r ≡ n)
unfolding reserve_register
reserve_register-cases n r = ground arith

reserve_each-Earliest :
    (r : ℕ) (tids : List ℕ) → All (λ n. n ≢ 0) tids → Earliest r tids (reserve_each tids r)
unfolding Earliest reserve_each
reserve_each-Earliest r [] h = (inl refl, (λ z. (z, omega arith)), tt)
reserve_each-Earliest r (n ∷ ns) h =
    let ih = reserve_each-Earliest (reserve_register n r) ns h.1 in
    let one = ih.1 (reserve_register-Knows n r h.0).0 in
    let k = reserve_register-Knows n r h.0 in
    (
      elim ih.0 [
        | inl e ↦ elim (reserve_register-cases n r) [
          | inl same ↦ inl (e ∙ same)
          | inr own ↦ inr (inl (e ∙ own))
        ]
        | inr i ↦ inr (inr i)
      ],
      (λ z. let f = reserve_register-Falls n r h.0 z in (one.0, omega arith)),
      ((one.0, omega arith), ih.2),
    )

-- In any interleaving of any number of reservations of one key, once every thread has left its
-- loop the register holds what the threads would have left one after another, in any order.
pub Reach-reserve_each :
    (r : ℕ) (tids : List ℕ) (s : Shared)
    → All (λ n. n ≢ 0) tids
    → Reach (begin r tids) s
    → All (λ t. t.place ≡ finished) s.threads
    → s.register ≡ reserve_each tids r
unfolding Earliest
Reach-reserve_each r tids s h p done =
    let v = Reach-Inv (begin-Inv r tids h) p in
    Earliest-unique r s.register (reserve_each tids r) tids
      (v.comes, v.falls, subst (All _) v.named (low s.threads v.safe done))
      (reserve_each-Earliest r tids h)
  where
    low :
        (ts : List Thread)
        → All (IsSafe s.register) ts
        → All (λ t. t.place ≡ finished) ts
        → All (λ n. (s.register ≢ 0) × (s.register ≤ n)) (ids ts)
    low [] a d = tt
    low (t ∷ ts) a d = (subst (Knows s.register t.tid) d.0 a.0.1, low ts a.1 d.1)
