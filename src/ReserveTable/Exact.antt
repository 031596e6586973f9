-- ===== src/ReserveTable/Exact.antt =====
-- The analysis of a transaction's dependencies finds what it looks for, and nothing else.
use neu_chain.Prelude.{
  ℕ, ◌≤◌, ◌<◌, ◌≡◌, ◌≢◌, refl, sym, ◌∙◌, subst, ◌⊎◌, inl, inr, ◌↔◌, List, [], ◌∷◌, map, Bool, true,
  false, Key, same_key_refl, Key-cases, Bool-cases, if◌then◌else◌, In, arith,
}
use neu_chain.RwSet.{KvRead, KvWrite, KvRwSet, read_key, write_key, read_keys, write_keys}
use neu_chain.ReserveTable.{
  new_reserve_table, earlier_comm, earlier-cases, earlier-le, zero_earlier, is_earlier,
  find_earlier_write, find_earlier_read, dependency_analysis,
}
use neu_chain.ReserveTable.Min.{
  Batch, HasIds, claim, first_claim, reserve_all, reserve_all-first_claim,
}

claim-cases :
    (tid : ℕ) (k : Key) (js : List Key)
    → ((claim tid k js ≡ tid) × In k js) ⊎ ((claim tid k js ≡ 0) × ¬ In k js)
unfolding claim
claim-cases tid k [] = inr (refl, λ i. i)
claim-cases tid k (j ∷ js) = elim (Key-cases j k) [
  | inl e ↦ inl (ground (arith, same_key_refl k), inl (sym e))
  | inr ne ↦ ground (arith, claim-cases tid k js, same_key_refl k)
]

-- The entry of the batch claims the key, among the keys selected of its set.
abbrev pub Claims : (KvRwSet → List Key) → Key → ℕ × KvRwSet → Type 0
Claims keys k e = In k (keys e.1)

first_claim-claimed :
    (keys : KvRwSet → List Key) (k : Key) (b : Batch)
    → first_claim keys k b ≢ 0
    → (e : ℕ × KvRwSet) × In e b × (e.0 ≡ first_claim keys k b) × Claims keys k e
unfolding first_claim
first_claim-claimed keys k [] h = absurd (h refl)
first_claim-claimed keys k ((tid, s) ∷ b) h =
    elim (earlier-cases (claim tid k (keys s)) (first_claim keys k b)) [
      | inl p ↦ elim (claim-cases tid k (keys s)) [
        | inl (q, i) ↦ ((tid, s), inl refl, sym (p ∙ q), i)
        | inr (q, _) ↦ absurd (h (p ∙ q))
      ]
      | inr p ↦
          let r = first_claim-claimed keys k b (λ z. h (p ∙ z)) in (r.0, inr r.1, r.2 ∙ sym p, r.3)
    ]

first_claim-least :
    (keys : KvRwSet → List Key) (k : Key) (b : Batch) (e : ℕ × KvRwSet)
    → HasIds b
    → In e b
    → Claims keys k e
    → (first_claim keys k b ≢ 0) × (first_claim keys k b ≤ e.0)
unfolding first_claim
first_claim-least keys k [] e ids i c = absurd i
first_claim-least keys k ((tid, s) ∷ b) e ids (inl p) c = elim (claim-cases tid k (keys s)) [
  | inl (q, i) ↦ rw (q, p) (earlier-le tid (first_claim keys k b) ids.0)
  | inr (q, ni) ↦ absurd (ni (subst (Claims keys k) p c))
]
first_claim-least keys k ((tid, s) ∷ b) e ids (inr i) c =
    let r = first_claim-least keys k b e ids.1 i c in
    let l = earlier-le (first_claim keys k b) (claim tid k (keys s)) r.0 in
    rw (earlier_comm (claim tid k (keys s)) (first_claim keys k b)) (l.0, omega arith)

-- A key whose claims in the batch include one by a smaller id.
abbrev pub EarlierClaim : (KvRwSet → List Key) → ℕ → Key → Batch → Type 0
EarlierClaim keys tid k b = (e : ℕ × KvRwSet) × In e b × (e.0 < tid) × Claims keys k e

is_earlier_iff :
    (keys : KvRwSet → List Key) (tid : ℕ) (k : Key) (b : Batch)
    → HasIds b
    → (is_earlier tid (first_claim keys k b) ≡ true) ↔ EarlierClaim keys tid k b
is_earlier_iff keys tid k b ids = (
  (λ h. let r = first_claim-claimed keys k b (ground arith) in (r.0, r.1, ground arith, r.3)),
  (λ c. let r = first_claim-least keys k b c.0 ids c.1 c.3 in let lt = c.2 in ground arith),
)

-- One of the transaction's own keys is claimed by a smaller id of the batch.
abbrev pub Conflict : (KvRwSet → List Key) → Batch → ℕ → List Key → Type 0
Conflict keys b tid mine = (k : Key) × In k mine × EarlierClaim keys tid k b

-- The loops over writes and reads are one loop over keys.
find_earlier : ℕ → (Key → ℕ) → List Key → Bool
find_earlier tid t [] = false
find_earlier tid t (k ∷ ks) = if is_earlier tid (t k) then true else find_earlier tid t ks

find_earlier_write-keys :
    (tid : ℕ) (t : Key → ℕ) (ws : List KvWrite)
    → find_earlier_write tid t ws ≡ find_earlier tid t (map write_key ws)
unfolding find_earlier_write find_earlier
find_earlier_write-keys tid t [] = refl
find_earlier_write-keys tid t (w ∷ ws) = rw (find_earlier_write-keys tid t ws)

find_earlier_read-keys :
    (tid : ℕ) (t : Key → ℕ) (rs : List KvRead)
    → find_earlier_read tid t rs ≡ find_earlier tid t (map read_key rs)
unfolding find_earlier_read find_earlier
find_earlier_read-keys tid t [] = refl
find_earlier_read-keys tid t (r ∷ rs) = rw (find_earlier_read-keys tid t rs)

abbrev Found : ℕ → (Key → ℕ) → List Key → Type 0
Found tid t ks = (k : Key) × In k ks × (is_earlier tid (t k) ≡ true)

find_earlier_sound :
    (tid : ℕ) (t : Key → ℕ) (ks : List Key) → find_earlier tid t ks ≡ true → Found tid t ks
unfolding find_earlier
find_earlier_sound tid t [] h = cc
find_earlier_sound tid t (k ∷ ks) h = elim (Bool-cases (is_earlier tid (t k))) [
  | inl e ↦ (k, inl refl, e)
  | inr e ↦ let r = find_earlier_sound tid t ks (rw e at h) in (r.0, inr r.1, r.2)
]

find_earlier_complete :
    (tid : ℕ) (t : Key → ℕ) (ks : List Key) → Found tid t ks → find_earlier tid t ks ≡ true
unfolding find_earlier
find_earlier_complete tid t [] f = absurd f.1
find_earlier_complete tid t (j ∷ js) (k, inl p, e) = rw (← p, e)
find_earlier_complete tid t (j ∷ js) (k, inr i, e) =
    ground (arith, find_earlier_complete tid t js (k, i, e))

-- Over the table of a batch, the loop finds the keys that a smaller id claims.
find_earlier-Conflict :
    (keys : KvRwSet → List Key) (b : Batch) (tid : ℕ) (t : Key → ℕ) (mine : List Key)
    → HasIds b
    → ((k : Key) → t k ≡ first_claim keys k b)
    → (find_earlier tid t mine ≡ true) ↔ Conflict keys b tid mine
find_earlier-Conflict keys b tid t mine ids h = (
  (λ f.
      let r = find_earlier_sound tid t mine f in
      (r.0, r.1, (is_earlier_iff keys tid r.0 b ids).0 (rw (h r.0) at r.2))),
  (λ c.
      find_earlier_complete tid t mine
        (c.0, c.1, rw (h c.0) ((is_earlier_iff keys tid c.0 b ids).1 c.2))),
)

-- After the batch of an epoch has been reserved in a new table, the analysis of a transaction
-- reports each kind of dependency exactly when an entry of the batch with a smaller id writes one
-- of its written keys (waw), reads one of its written keys (war), or writes one of its read keys
-- (raw). The ids of the batch are not 0.
pub dependency_analysis-exact :
    (b : Batch) (epoch tid : ℕ) (s : KvRwSet)
    → HasIds b
    → let d = dependency_analysis s tid (reserve_all b (new_reserve_table epoch)) in
      ((d.waw ≡ true) ↔ Conflict write_keys b tid (write_keys s))
      × ((d.war ≡ true) ↔ Conflict read_keys b tid (write_keys s))
      × ((d.raw ≡ true) ↔ Conflict write_keys b tid (read_keys s))
unfolding dependency_analysis
dependency_analysis-exact b epoch tid s ids = (
  rw (find_earlier_write-keys tid writes s.writes)
      (find_earlier-Conflict write_keys b tid writes (write_keys s) ids written),
  rw (find_earlier_write-keys tid reads s.writes)
      (find_earlier-Conflict read_keys b tid reads (write_keys s) ids read),
  rw (find_earlier_read-keys tid writes s.reads)
      (find_earlier-Conflict write_keys b tid writes (read_keys s) ids written),
)
  where
    reads : Key → ℕ
    reads = (reserve_all b (new_reserve_table epoch)).read_table

    writes : Key → ℕ
    writes = (reserve_all b (new_reserve_table epoch)).write_table

    read : (k : Key) → reads k ≡ first_claim read_keys k b
    read k = (reserve_all-first_claim b (new_reserve_table epoch) k ids).0 ∙ zero_earlier _

    written : (k : Key) → writes k ≡ first_claim write_keys k b
    written k = (reserve_all-first_claim b (new_reserve_table epoch) k ids).1 ∙ zero_earlier _
