-- ===== src/Executor/Outcome.antt =====
-- The outcome of an epoch.
use mathlib.Core.List.{Perm}
use neu_chain.Prelude.{
  ℕ, ◌≡◌, ◌≢◌, ◌⊎◌, refl, sym, ap, ◌∙◌, subst, some, inl, inr, List, [], ◌∷◌, map, All, All-map,
  All-of_any, Pairwise,
}
use neu_chain.ReserveTable.{ReserveTable, new_reserve_table, Provider}
use neu_chain.ReserveTable.Min.{Batch, reserve_all}
use neu_chain.Transaction.{Transaction, pending}
use neu_chain.Storage.{DbStorage}
use neu_chain.Serial.{Entry, apply_all, Replays}
use neu_chain.Serial.Order.{serial_order}
use neu_chain.Serial.Conflicts.{committed, dependency, has_raw, committed-Replays}
use neu_chain.Serial.Progress.{committed-ne-nil}
use neu_chain.Database.{Database}
use neu_chain.Chaincode.{Chaincode}
use neu_chain.Executor.{execute_list, run_epoch}
use neu_chain.Executor.Execute.{IsFresh, reserved, tids}
use neu_chain.Executor.Commit.{
  settle, settled-ne-pending, passing, Committed, commit_list-Committed,
}
use neu_chain.Executor.Epoch.{IsOld, commits_of, commits_of-settle, Read, execute_list-Read}

nil_cases : (b : Batch) → (b ≡ []) ⊎ (b ≢ [])
nil_cases [] = inl refl
nil_cases (x ∷ b) = inr (λ h. cc)

module _ (s : DbStorage) (c : Chaincode s) where
  -- What holds of the transactions and the database after an epoch.
  pub record Serializes (ts us vs : List Transaction) (d d' : Database s) : Type 0 where
    pub order : List Entry
    pub same : Perm order (commits_of vs)
    pub replays : Replays order (s.view d.storage) (s.view d'.storage)
    pub same_ids : tids vs ≡ tids ts
    pub decided : All (λ v. v.result ≢ pending) vs
    pub progress : (reserved us ≡ []) ⊎ (commits_of vs ≢ [])

  -- One epoch of the block server is serializable. Take transactions of one epoch that have
  -- different ids other than 0, are not read-only, and have empty sets and no result yet, and a
  -- provider without a table of the epoch. If no chaincode stops the process, then the epoch runs to its end. It keeps the ids and
  -- leaves no transaction pending. There is an order of exactly the transactions with the result
  -- COMMIT in which, run one after another from the view of the storage before the epoch, each
  -- reads the values that it has recorded, and the last leaves the view after the epoch. And if any
  -- transaction had no internal error, then at least one commits.
  pub run_epoch-Serializes :
      (e : ℕ) (t : Transaction) (ts us : List Transaction) (p p' : Provider) (d d' : Database s)
      → All IsFresh (t ∷ ts)
      → Pairwise (λ a b. a.tid ≢ b.tid) (t ∷ ts)
      → t.epoch ≡ e
      → IsOld e p
      → execute_list s c (t ∷ ts) p d ≡ some (us, p', d')
      → (vs : List Transaction) × (d'' : Database s) × (run_epoch s c (t ∷ ts) p d
          ≡ some (vs, p', d''))
        × Serializes (t ∷ ts) us vs d d''
  unfolding run_epoch committed dependency
  run_epoch-Serializes e t ts us p p' d d' fresh apart epoch old h =
      let r = execute_list-Read s c e t ts us p p' d d' fresh apart epoch old h in
      let (d'', done, q) = commit_list-Committed s table us d' r.buffered in
      (map (settle table) us, d'', rw (h, run_epoch) (rw (r.table, done)), outcome r d'' q)
    where
      b : Batch
      b = reserved us

      table : ReserveTable
      table = reserve_all b (new_reserve_table e)

      ids : (xs : List Transaction) → tids (map (settle table) xs) ≡ tids xs
      ids [] = refl
      ids (x ∷ xs) = ap (◌∷◌ x.tid) (ids xs)

      outcome :
          Read s c e (t ∷ ts) us p' d d'
          → (d'' : Database s) → Committed s table us d' d''
          → Serializes (t ∷ ts) us (map (settle table) us) d d''
      outcome r d'' q =
          let (same, replays) =
            committed-Replays e b r.ids (s.view d.storage) r.different r.reads in
          record {
            order = serial_order (has_raw e b) (committed e b);
            same = rw (commits_of-settle table us) same;
            replays =
                subst (Replays _ (s.view d.storage))
                  (sym (q.view ∙ ap (apply_all (passing table us)) r.view)) replays;
            progress = elim (nil_cases b) [
              | inl none_reserved ↦ inl none_reserved
              | inr ne ↦ inr (rw (commits_of-settle table us) (committed-ne-nil e b r.ids ne))
            ];
            decided = All-map _ _ us (All-of_any (λ u. settled-ne-pending table u) us);
            same_ids = ids us ∙ r.same_ids;
          }
