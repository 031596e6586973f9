-- ===== src/ReserveTable/Min.antt =====
-- What a reserve table holds after a batch of reservations: at each key the smallest id of the
-- batch that claims the key, whatever the order in which the reservations were made.
use mathlib.Core.List.{Perm, Permᴰ, Permᴰ.nil, Permᴰ.cons, Permᴰ.swap, Permᴰ.trans}
use mathlib.Core.Logic.{∥∥₁_elim}
use native.Mathlib.Nat.{ℕ_set}
use neu_chain.Prelude.{
  ℕ, ◌≡◌, ◌≢◌, refl, sym, ap, ◌∙◌, fun_ext, inl, inr, List, [], ◌∷◌, map, if◌then◌else◌, Key,
  same_key, same_key_refl, Key-cases, Bool-cases, All, arith,
}
use neu_chain.RwSet.{KvRead, KvWrite, KvRwSet, read_key, write_key, read_keys, write_keys}
use neu_chain.ReserveTable.{
  ReserveTable, reserve_key, reserve_reads, reserve_writes, reserve_rw_set, earlier,
  reserve_register-eq-earlier, earlier_comm, earlier_assoc, earlier_zero,
}

-- The reservations of a batch, in the order in which they are made.
abbrev pub Batch : Type 0
Batch = List (ℕ × KvRwSet)

unfoldable pub reserve_all : Batch → ReserveTable → ReserveTable
reserve_all [] t = t
reserve_all ((tid, s) ∷ b) t = reserve_all b (reserve_rw_set s tid t)

abbrev pub HasIds : Batch → Type 0
HasIds = All (λ e. e.0 ≢ 0)

-- The id, if the key is among the keys, and else no id.
unfoldable pub claim : ℕ → Key → List Key → ℕ
claim tid k [] = 0
claim tid k (j ∷ js) = if same_key j k then tid else claim tid k js

-- The smallest id of a batch that claims the key, by the keys that are selected of its set.
unfoldable pub first_claim : (KvRwSet → List Key) → Key → Batch → ℕ
unfolding claim
first_claim keys k [] = 0
first_claim keys k ((tid, s) ∷ b) = earlier (claim tid k (keys s)) (first_claim keys k b)

-- Both loops of a reservation run over the keys alone.
reserve_keys : ℕ → List Key → (Key → ℕ) → Key → ℕ
reserve_keys tid [] t = t
reserve_keys tid (k ∷ ks) t = reserve_keys tid ks (reserve_key tid k t)

reserve_reads-keys :
    (tid : ℕ) (rs : List KvRead) (t : Key → ℕ)
    → reserve_reads tid rs t ≡ reserve_keys tid (map read_key rs) t
unfolding reserve_reads reserve_keys
reserve_reads-keys tid [] t = refl
reserve_reads-keys tid (r ∷ rs) t = reserve_reads-keys tid rs (reserve_key tid (read_key r) t)

reserve_writes-keys :
    (tid : ℕ) (ws : List KvWrite) (t : Key → ℕ)
    → reserve_writes tid ws t ≡ reserve_keys tid (map write_key ws) t
unfolding reserve_writes reserve_keys
reserve_writes-keys tid [] t = refl
reserve_writes-keys tid (w ∷ ws) t = reserve_writes-keys tid ws (reserve_key tid (write_key w) t)

reserve_key_lem :
    (tid : ℕ) (j k : Key) (t : Key → ℕ)
    → tid ≢ 0
    → reserve_key tid j t k ≡ (if same_key j k then earlier (t k) tid else t k)
reserve_key_lem tid j k t h = elim (Key-cases j k) [
  | inl p ↦
      rw (p, same_key_refl k) (reserve_register-eq-earlier tid (t k) h ∙ earlier_comm tid (t k))
  | inr q ↦ rw q
]

-- A second claim by the same id changes nothing.
claim_absorbed : (tid : ℕ) (k : Key) (js : List Key) → earlier tid (claim tid k js) ≡ tid
unfolding claim earlier
claim_absorbed tid k [] = ground arith
claim_absorbed tid k (j ∷ js) = ground (arith, claim_absorbed tid k js)

reserve_keys-claim :
    (tid : ℕ) (ks : List Key) (t : Key → ℕ) (k : Key)
    → tid ≢ 0
    → reserve_keys tid ks t k ≡ earlier (t k) (claim tid k ks)
unfolding reserve_keys claim
reserve_keys-claim tid [] t k h = sym (earlier_zero (t k))
reserve_keys-claim tid (j ∷ js) t k h =
    rw (reserve_keys-claim tid js (reserve_key tid j t) k h, reserve_key_lem tid j k t h)
      (elim (Bool-cases (same_key j k)) [
        | inl e ↦ rw (e, earlier_assoc (t k) tid (claim tid k js), claim_absorbed tid k js)
        | inr e ↦ rw e
      ])

-- Reserving one set adds its claims to both tables.
pub reserve_rw_set-claim :
    (s : KvRwSet) (tid : ℕ) (t : ReserveTable) (k : Key)
    → tid ≢ 0
    → let t' = reserve_rw_set s tid t in
      (t'.read_table k ≡ earlier (t.read_table k) (claim tid k (read_keys s)))
      × (t'.write_table k ≡ earlier (t.write_table k) (claim tid k (write_keys s)))
unfolding reserve_rw_set
reserve_rw_set-claim s tid t k h = (
  rw (reserve_reads-keys tid s.reads t.read_table)
      (reserve_keys-claim tid (read_keys s) t.read_table k h),
  rw (reserve_writes-keys tid s.writes t.write_table)
      (reserve_keys-claim tid (write_keys s) t.write_table k h),
)

-- So after a batch each register holds the earlier of what it held and the first claim.
pub reserve_all-first_claim :
    (b : Batch) (t : ReserveTable) (k : Key)
    → HasIds b
    → let t' = reserve_all b t in
      (t'.read_table k ≡ earlier (t.read_table k) (first_claim read_keys k b))
      × (t'.write_table k ≡ earlier (t.write_table k) (first_claim write_keys k b))
unfolding reserve_all first_claim
reserve_all-first_claim [] t k h = (sym (earlier_zero _), sym (earlier_zero _))
reserve_all-first_claim ((tid, s) ∷ b) t k h =
    let one = reserve_rw_set-claim s tid t k h.0 in
    let rest = reserve_all-first_claim b (reserve_rw_set s tid t) k h.1 in
    (rest.0 ∙ rw one.0 (earlier_assoc _ _ _), rest.1 ∙ rw one.1 (earlier_assoc _ _ _))

first_claim-Permᴰ :
    (keys : KvRwSet → List Key) (k : Key) {b c : Batch}
    → Permᴰ b c
    → first_claim keys k b ≡ first_claim keys k c
unfolding first_claim
first_claim-Permᴰ keys k nil = refl
first_claim-Permᴰ keys k (cons {a = x} {b = y} e p) = rw (e, first_claim-Permᴰ keys k p)
first_claim-Permᴰ keys k (swap {a = x} {b = y} {l = l} e f) =
    rw (e, f)
      (sym (earlier_assoc _ _ _)
        ∙ ap (λ n. earlier n (first_claim keys k l)) (earlier_comm _ _)
        ∙ earlier_assoc _ _ _)
first_claim-Permᴰ keys k (trans p q) = first_claim-Permᴰ keys k p ∙ first_claim-Permᴰ keys k q

pub first_claim-perm :
    (keys : KvRwSet → List Key) (k : Key) (b c : Batch)
    → Perm b c
    → first_claim keys k b ≡ first_claim keys k c
first_claim-perm keys k b c p = ∥∥₁_elim p (ℕ_set _ _) (first_claim-Permᴰ keys k)

reserve_all-epoch : (b : Batch) (t : ReserveTable) → (reserve_all b t).epoch ≡ t.epoch
unfolding reserve_all reserve_rw_set
reserve_all-epoch [] t = refl
reserve_all-epoch ((tid, s) ∷ b) t = reserve_all-epoch b (reserve_rw_set s tid t)

-- The order of the reservations of an epoch does not matter: two workers that reserve the same
-- batch in two orders, with ids other than 0, leave the same table.
pub reserve_all-perm :
    (b c : Batch) (t : ReserveTable)
    → HasIds b
    → HasIds c
    → Perm b c
    → reserve_all b t ≡ reserve_all c t
reserve_all-perm b c t hb hc p = λ i. record {
  epoch = (reserve_all-epoch b t ∙ sym (reserve_all-epoch c t)) i;
  read_table =
      fun_ext
        (λ k.
          (reserve_all-first_claim b t k hb).0
          ∙ ap (earlier (t.read_table k)) (first_claim-perm read_keys k b c p)
          ∙ sym (reserve_all-first_claim c t k hc).0)
        i;
  write_table =
      fun_ext
        (λ k.
          (reserve_all-first_claim b t k hb).1
          ∙ ap (earlier (t.write_table k)) (first_claim-perm write_keys k b c p)
          ∙ sym (reserve_all-first_claim c t k hc).1)
        i;
}
