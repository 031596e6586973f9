-- ===== src/Executor.antt =====
-- The executors of a worker: `TransactionExecutorImpl::executeList`
-- (src/block_server/worker/impl/transaction_executor_impl.cpp) and
-- `TransactionExecutor::commitList` (src/block_server/worker/transaction_executor.cpp).
-- A worker's `reserveTable` points at the table of the provider, which all workers share.
pub mod Execute
pub mod Commit
pub mod Epoch
pub mod Outcome
use neu_chain.Prelude.{ℕ, Bool, true, false, Option, none, some, List, [], ◌∷◌, if◌then◌else◌}
use neu_chain.RwSet.{KvRwSet}
use neu_chain.ReserveTable.{
  ReserveTable, Provider, get_reserve_table, reserve_rw_set, dependency_analysis,
}
use neu_chain.Decision.{Verdict, overwrites, commits, crosses, decide}
use neu_chain.Transaction.{
  Transaction, TransactionResult, commit, pending, abort, abort_no_retry, is_abort_no_retry,
}
use neu_chain.Storage.{DbStorage}
use neu_chain.Database.{Database, buffer_updates, commit_update, abort_update}
use neu_chain.Chaincode.{Chaincode, Run}

infixl 5 ◌>>=◌
abbrev pub ◌>>=◌ : {A B : Type 0} → Option A → (A → Option B) → Option B
m >>= f = elim m [ none ↦ none | some a ↦ f a ]

abbrev pub with_result : Transaction → TransactionResult → Transaction
with_result t r = record t { result = r }

module _ (s : DbStorage) where
  -- What the workers share while they execute an epoch.
  pub record Shared : Type 0 where
    pub table : ReserveTable
    pub database : Database s

  -- The transaction after its chaincode has run.
  abbrev pub after_run : Transaction → Run s → Transaction
  after_run t r = record t {
    rw_set = r.rw_set;
    result = if r.succeeds then t.result else abort_no_retry;
  }

  abbrev pub reserved_after : Transaction → Run s → ReserveTable → ReserveTable
  reserved_after t r table = if r.succeeds then reserve_rw_set r.rw_set t.tid table else table

  -- `CCORMHelper::execute`, run by the destructor of the chaincode.
  abbrev pub buffered_after : Transaction → Run s → Database s → Database s
  buffered_after t r d =
      let e = record d { storage = r.storage } in
      if t.read_only then e else buffer_updates s t.tid r.rw_set r.tables e

  -- One round of the loop of `executeList`.
  unfoldable pub execute_one : Chaincode s → Transaction → Shared → Option (Transaction × Shared)
  execute_one c t w = do
    r ← c.invoke t w.database.storage
    some (
      after_run t r,
      record { table = reserved_after t r w.table; database = buffered_after t r w.database },
    )

  unfoldable pub execute_all :
      Chaincode s → List Transaction → Shared → Option (List Transaction × Shared)
  execute_all c [] w = some ([], w)
  execute_all c (t ∷ ts) w = do
    (u, w') ← execute_one c t w
    (us, w'') ← execute_all c ts w'
    some (u ∷ us, w'')

  -- All transactions of a list are of one epoch, that of the first.
  unfoldable pub execute_list :
      Chaincode s
      → List Transaction
      → Provider
      → Database s
      → Option (List Transaction × Provider × Database s)
  execute_list c [] p d = some ([], p, d)
  execute_list c (t ∷ ts) p d = do
    (us, w) ← execute_all c (t ∷ ts) (record { table = get_reserve_table t.epoch p; database = d })
    some (us, some w.table, w.database)

  -- The commit of a transaction that the analysis lets through.
  unfoldable commit_allowed : Transaction → Database s → Option (Transaction × Database s)
  commit_allowed t d = do
    (d', done) ← commit_update s t.tid d
    some (with_result t (if done then commit else abort_no_retry), d')

  unfoldable commit_checked :
      ReserveTable → Transaction → Database s → Option (Transaction × Database s)
  commit_checked table t d = elim (decide (dependency_analysis t.rw_set t.tid table)) [
    | overwrites ↦ some (with_result t abort, d)
    | commits ↦ commit_allowed t d
    | crosses ↦ some (with_result t abort, abort_update s t.tid d)
  ]

  -- One round of the loop of `commitList`.
  unfoldable pub commit_one :
      ReserveTable → Transaction → Database s → Option (Transaction × Database s)
  unfolding commit_checked commit_allowed
  commit_one table t d =
      if is_abort_no_retry t.result
      then some (t, abort_update s t.tid d)
      else commit_checked table t d

  unfoldable pub commit_list :
      ReserveTable → List Transaction → Database s → Option (List Transaction × Database s)
  commit_list table [] d = some ([], d)
  commit_list table (t ∷ ts) d = do
    (u, d') ← commit_one table t d
    (us, d'') ← commit_list table ts d'
    some (u ∷ us, d'')

  -- The read phase and the commit phase of one worker, as `AriaWorker::run` and
  -- `AriaCoordinator::run` (src/block_server/coordinator/aria_coordinator.cpp) put them in order.
  unfoldable pub run_epoch :
      Chaincode s
      → List Transaction
      → Provider
      → Database s
      → Option (List Transaction × Provider × Database s)
  run_epoch c ts p d = do
    (us, p', d') ← execute_list c ts p d
    table ← p'
    (vs, d'') ← commit_list table us d'
    some (vs, p', d'')
