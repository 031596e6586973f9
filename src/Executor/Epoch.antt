-- ===== src/Executor/Epoch.antt =====
-- One epoch of the block server: its transactions are executed against one view of the storage
-- and reserved in the table of the epoch, and then committed. The outcome is that of a serial run.
use neu_chain.Prelude.{
  ℕ, ◌≡◌, ◌≢◌, refl, sym, ap, subst, true, false, none, some, inl, inr, List, [], ◌∷◌, map,
  if◌then◌else◌, All, All-map_lem, All-map, All-of_map, Pairwise, Pairwise-map, Bool-cases,
  bind-eq-some, some_inj, arith,
}
use neu_chain.ReserveTable.{ReserveTable, new_reserve_table, Provider, get_reserve_table}
use neu_chain.ReserveTable.Min.{HasIds, reserve_all}
use neu_chain.Transaction.{
  Transaction, TransactionResult, commit, pending, abort, abort_no_retry, is_abort_no_retry,
  is_commit,
}
use neu_chain.Storage.{DbStorage}
use neu_chain.Serial.{Entry, ReadsFrom}
use neu_chain.Serial.Order.{Distinct}
use neu_chain.Database.{Database}
use neu_chain.Chaincode.{Chaincode}
use neu_chain.Executor.{Shared, execute_all, execute_list}
use neu_chain.Executor.Execute.{
  IsFresh, is_reserved, entry, reserved, tids, IsBuffered, Executed, execute_all-Executed,
}
use neu_chain.Executor.Commit.{passes, passing, settle}

-- The entries of the transactions whose result is COMMIT.
abbrev pub commits_of : List Transaction → List Entry
commits_of [] = []
commits_of (t ∷ ts) = if is_commit t.result then entry t ∷ commits_of ts else commits_of ts

pub commits_of-settle :
    (table : ReserveTable) (us : List Transaction)
    → commits_of (map (settle table) us) ≡ passing table us
commits_of-settle table [] = refl
commits_of-settle table (u ∷ us) = elim (Bool-cases (is_abort_no_retry u.result)) [
  | inl e ↦ rw (e, not-commit u.result e) (commits_of-settle table us)
  | inr e ↦ elim (Bool-cases (passes table (entry u))) [
    | inl p ↦ rw (e, p) (ap (◌∷◌ (entry u)) (commits_of-settle table us))
    | inr p ↦ rw (e, p) (commits_of-settle table us)
  ]
]
  where
    not-commit : (r : TransactionResult) → is_abort_no_retry r ≡ true → is_commit r ≡ false
    not-commit abort_no_retry h = refl
    not-commit commit h = cc
    not-commit pending h = refl
    not-commit abort h = refl

-- The provider has no table of the epoch.
abbrev pub IsOld : ℕ → Provider → Type 0
IsOld e none = Unit {0}
IsOld e (some t) = t.epoch ≢ e

get_reserve_table-IsOld :
    (e : ℕ) (p : Provider) → IsOld e p → get_reserve_table e p ≡ new_reserve_table e
unfolding get_reserve_table
get_reserve_table-IsOld e none h = refl
get_reserve_table-IsOld e (some t) h = ground arith

-- Ids that are not 0 stay so through the execution.
reserved-HasIds : (us : List Transaction) → All (λ n. n ≢ 0) (tids us) → HasIds (reserved us)
reserved-HasIds [] h = tt
reserved-HasIds (u ∷ us) h = ground (arith, reserved-HasIds us h.1)

reserved-All :
    (P : Entry → Type 0) (us : List Transaction) → All (λ u. P (entry u)) us → All P (reserved us)
reserved-All P [] h = tt
reserved-All P (u ∷ us) h = elim (Bool-cases (is_reserved u.result)) [
  | inl e ↦ rw e (h.0, reserved-All P us h.1)
  | inr e ↦ rw e (reserved-All P us h.1)
]

reserved-Distinct :
    (us : List Transaction) → Pairwise (λ m n. m ≢ n) (tids us) → Pairwise Distinct (reserved us)
reserved-Distinct [] h = tt
reserved-Distinct (u ∷ us) h = elim (Bool-cases (is_reserved u.result)) [
  | inl e ↦ rw e (
    reserved-All (Distinct (entry u)) us (All-of_map (λ t. t.tid) (λ n. u.tid ≢ n) us h.0),
    reserved-Distinct us h.1,
  )
  | inr e ↦ rw e (reserved-Distinct us h.1)
]

module _ (s : DbStorage) (c : Chaincode s) where
  -- What is known once a list has been executed, in the table of a new epoch.
  pub record Read (e : ℕ) (ts us : List Transaction) (p' : Provider) (d d' : Database s)
      : Type 0 where
    pub same_ids : tids us ≡ tids ts
    pub table : p' ≡ some (reserve_all (reserved us) (new_reserve_table e))
    pub ids : HasIds (reserved us)
    pub different : Pairwise Distinct (reserved us)
    pub reads : All (λ x. ReadsFrom (s.view d.storage) x.1) (reserved us)
    pub view : s.view d'.storage ≡ s.view d.storage
    pub buffered : All (IsBuffered s d') us

  pub execute_list-Read :
      (e : ℕ) (t : Transaction) (ts us : List Transaction) (p p' : Provider) (d d' : Database s)
      → All IsFresh (t ∷ ts)
      → Pairwise (λ a b. a.tid ≢ b.tid) (t ∷ ts)
      → t.epoch ≡ e
      → IsOld e p
      → execute_list s c (t ∷ ts) p d ≡ some (us, p', d')
      → Read e (t ∷ ts) us p' d d'
  unfolding execute_list
  execute_list-Read e t ts us p p' d d' fresh apart epoch old h =
      let ((vs, w), run, out) =
        bind-eq-some
          (execute_all s c (t ∷ ts) (record { table = get_reserve_table t.epoch p; database = d }))
          _ h in
      subst (λ x. Read e (t ∷ ts) x.0 x.1 d x.2) (some_inj out)
        (of_Executed vs w (
          subst (λ r. Executed s (t ∷ ts) vs (record { table = r; database = d }) w)
            (get_reserve_table-IsOld e p old)
            (subst
              (λ n.
                Executed s (t ∷ ts) vs (record { table = get_reserve_table n p; database = d }) w)
              epoch (execute_all-Executed s c (t ∷ ts) vs _ w fresh apart run))))
    where
      of_Executed :
          (vs : List Transaction) (w : Shared s)
          → Executed s (t ∷ ts) vs (record { table = new_reserve_table e; database = d }) w
          → Read e (t ∷ ts) vs (some w.table) d w.database
      of_Executed vs w x = record {
        same_ids = x.same_ids;
        table = ap some x.table;
        ids = reserved-HasIds vs (
            subst (All (λ n. n ≢ 0)) (sym x.same_ids) (
              All-map (λ a. a.tid) (λ n. n ≢ 0) (t ∷ ts)
                (All-map_lem _ _ (t ∷ ts) (λ a f. f.has_id) fresh)));
        different = reserved-Distinct vs (
            subst (Pairwise (λ m n. m ≢ n)) (sym x.same_ids)
              (Pairwise-map (λ a. a.tid) (λ m n. m ≢ n) (t ∷ ts) apart));
        reads = reserved-All (λ y. ReadsFrom (s.view d.storage) y.1) vs x.reads;
        view = x.view;
        buffered = x.buffered;
      }
