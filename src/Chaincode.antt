-- ===== src/Chaincode.antt =====
-- The interface of a chaincode, include/block_server/worker/impl/chaincode_object.h: one run for a
-- transaction against the storage, and what the execution of an epoch relies on.
use neu_chain.Prelude.{◌≡◌, Bool, Option, some, List, All}
use neu_chain.RwSet.{KvRwSet, empty_rw_set}
use neu_chain.Transaction.{Transaction}
use neu_chain.Storage.{DbStorage}
use neu_chain.Database.{TableDefinition}
use neu_chain.Database.Commit.{HasTwoFields}
use neu_chain.Serial.{ReadsFrom}

-- What a run leaves: the result of `InvokeChaincode` as a truth value, the set that it has
-- recorded, the tables that it has defined, and the storage, in which a read may open a table.
pub record Run (s : DbStorage) : Type 0 where
  pub succeeds : Bool
  pub rw_set : KvRwSet
  pub tables : List TableDefinition
  pub storage : s.State

-- A failed `CHECK` stops the process: no run. A transaction comes with an empty set, as
-- `CCORMHelper` checks.
pub record Chaincode (s : DbStorage) : Type 1 where
  pub invoke : Transaction → s.State → Option (Run s)
  -- The recorded reads are values of the view, which a run does not change.
  pub invoke-ReadsFrom :
      (t : Transaction) (st : s.State) (r : Run s)
      → t.rw_set ≡ empty_rw_set
      → invoke t st ≡ some r
      → ReadsFrom (s.view st) r.rw_set
  pub invoke-view :
      (t : Transaction) (st : s.State) (r : Run s)
      → t.rw_set ≡ empty_rw_set
      → invoke t st ≡ some r
      → s.view r.storage ≡ s.view st
  pub invoke-HasTwoFields :
      (t : Transaction) (st : s.State) (r : Run s)
      → t.rw_set ≡ empty_rw_set
      → invoke t st ≡ some r
      → All HasTwoFields r.tables
