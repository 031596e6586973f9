-- ===== src/Aggregation.antt =====
-- The executor of transactions that another server of the cluster has run,
-- `AggregationTransactionExecutor::executeList`
-- (src/block_server/worker/impl/aggregation_transaction_executor.cpp): it only reserves their sets.
pub mod Broadcaster
pub mod Entries
pub mod Agrees
pub mod Coordinator
pub mod Finish
pub mod Parts
use mathlib.Core.List.{Perm}
use neu_chain.Prelude.{◌≡◌, refl, ap, ◌∙◌, some, List, [], ◌∷◌, if◌then◌else◌, Bool-cases, inl, inr}
use neu_chain.ReserveTable.{ReserveTable, Provider, get_reserve_table, reserve_rw_set}
use neu_chain.ReserveTable.Min.{Batch, HasIds, reserve_all, reserve_all-perm}
use neu_chain.Transaction.{Transaction, is_abort_no_retry}
use neu_chain.Executor.Execute.{reserved}

unfoldable pub aggregate_all : List Transaction → ReserveTable → ReserveTable
aggregate_all [] table = table
aggregate_all (t ∷ ts) table =
    aggregate_all ts
      (if is_abort_no_retry t.result then table else reserve_rw_set t.rw_set t.tid table)

unfoldable pub aggregate_list : List Transaction → Provider → Provider
unfolding aggregate_all
aggregate_list [] p = p
aggregate_list (t ∷ ts) p = some (aggregate_all (t ∷ ts) (get_reserve_table t.epoch p))

aggregate_all-reserve_all :
    (ts : List Transaction) (table : ReserveTable)
    → aggregate_all ts table ≡ reserve_all (reserved ts) table
unfolding aggregate_all reserve_all
aggregate_all-reserve_all [] table = refl
aggregate_all-reserve_all (t ∷ ts) table = elim (Bool-cases (is_abort_no_retry t.result)) [
  | inl e ↦ rw e (aggregate_all-reserve_all ts table)
  | inr e ↦ rw e (aggregate_all-reserve_all ts (reserve_rw_set t.rw_set t.tid table))
]

-- A server that gets the sets from another reserves what that one has reserved, in whatever order
-- they arrive: for a list of transactions, with ids other than 0 where they have no internal error,
-- the table that the executor leaves is that of any reordering of the sets to be reserved.
pub aggregate_list-Perm :
    (t : Transaction) (ts : List Transaction) (p : Provider) (b : Batch)
    → HasIds (reserved (t ∷ ts))
    → HasIds b
    → Perm (reserved (t ∷ ts)) b
    → aggregate_list (t ∷ ts) p ≡ some (reserve_all b (get_reserve_table t.epoch p))
unfolding aggregate_list
aggregate_list-Perm t ts p b ids ids' perm = ap some (
    aggregate_all-reserve_all (t ∷ ts) (get_reserve_table t.epoch p)
    ∙ reserve_all-perm (reserved (t ∷ ts)) b (get_reserve_table t.epoch p) ids ids' perm)
