-- ===== src/Tests/Epoch.antt =====
-- The theorems on the execution of an epoch at concrete transactions.
use neu_chain.Prelude.{
  ℕ, suc, ◌≡◌, ◌≢◌, refl, String, true, Option, none, some, List, [], ◌∷◌, map, same_key, arith,
}
use mathlib.Core.List.{Perm}
use neu_chain.ReserveTable.{
  ReserveTable, Provider, get_reserve_table, reserve_rw_set, dependency_analysis,
}
use neu_chain.ReserveTable.Min.{Batch, reserve_all}
use neu_chain.Transaction.{Transaction, commit, abort}
use neu_chain.Serial.{View, Entry, apply_all, Replays}
use neu_chain.Serial.Order.{serial_order}
use neu_chain.Serial.Conflicts.{committed, has_raw, committed-Replays}
use neu_chain.Serial.Progress.{committed-ne-nil}
use neu_chain.Database.{Database, set_entry, buffer_updates, commit_update}
use neu_chain.Database.Commit.{Commits, commit_update-Commits}
use neu_chain.Decision.{decide}
use neu_chain.Executor.{execute_one, execute_all, execute_list, commit_one, commit_list, run_epoch}
use neu_chain.Executor.Execute.{IsFresh}
use neu_chain.Executor.Outcome.{Serializes, run_epoch-Serializes}
use neu_chain.Tests.Data.{
  function_storage, copy_chaincode, copy, transfers, database, values, set_of,
}

abbrev Outcome : Type 0
Outcome = Option (List Transaction × Provider × Database function_storage)

abbrev transactions : Outcome → List Transaction
transactions none = []
transactions (some (ts, p, d)) = ts

abbrev provider : Outcome → Provider
provider none = none
provider (some (ts, p, d)) = p

abbrev database_of : Outcome → Database function_storage
database_of none = database
database_of (some (ts, p, d)) = d

abbrev executed : Outcome
executed = execute_list function_storage copy_chaincode transfers none database

run_epoch_results :
    map
      (λ t. t.result)
      (transactions (run_epoch function_storage copy_chaincode transfers none database))
    ≡ commit ∷ abort ∷ commit ∷ []
unfolding run_epoch execute_list execute_all execute_one commit_list commit_one decide
    dependency_analysis reserve_rw_set same_key neu_chain.ReserveTable.reserve_register
    get_reserve_table commit_update buffer_updates
run_epoch_results = refl

run_epoch-Serializes_example :
    (vs : List Transaction) × (d : Database function_storage) × (run_epoch function_storage
        copy_chaincode transfers none database
      ≡ some (vs, provider executed, d))
    × Serializes function_storage copy_chaincode transfers (transactions executed) vs database d
unfolding execute_list execute_all execute_one
run_epoch-Serializes_example =
    run_epoch-Serializes function_storage copy_chaincode 4 (copy 1 "a" "b")
      (copy 2 "c" "b" ∷ copy 3 "b" "d" ∷ []) (transactions executed) none (provider executed)
      database (database_of executed) (fresh, (fresh, (fresh, tt)))
      (((λ h. omega arith), ((λ h. omega arith), tt)), (((λ h. omega arith), tt), (tt, tt))) refl tt
      refl
  where
    fresh : {n : ℕ} {a b : String} → IsFresh (copy (suc n) a b)
    fresh = record { has_id = λ h. omega arith; unread = refl; writes = refl; waits = refl }

abbrev batch : Batch
batch = (1, set_of "a" "b" "a") ∷ (2, set_of "c" "b" "c") ∷ (3, set_of "b" "d" "b") ∷ []

-- The first and the third commit; the third has read what the first overwrites, and goes before it.
committed-batch :
    serial_order (has_raw 4 batch) (committed 4 batch)
    ≡ (3, set_of "b" "d" "b") ∷ (1, set_of "a" "b" "a") ∷ []
unfolding committed serial_order decide neu_chain.Serial.Conflicts.dependency dependency_analysis
    reserve_all reserve_rw_set same_key neu_chain.ReserveTable.reserve_register
    neu_chain.Serial.Order.insert
committed-batch = refl

committed-Replays_example :
    let order = serial_order (has_raw 4 batch) (committed 4 batch) in
    Perm order (committed 4 batch) × Replays order values (apply_all (committed 4 batch) values)
committed-Replays_example =
    committed-Replays 4 batch (omega arith) values
      (((λ h. omega arith), ((λ h. omega arith), tt)), (((λ h. omega arith), tt), (tt, tt)))
      ((refl, tt), ((refl, tt), ((refl, tt), tt)))

committed-ne-nil_example : committed 4 batch ≢ []
committed-ne-nil_example = committed-ne-nil 4 batch (omega arith) (λ h. cc)

-- A transaction that has been executed, and the database with its set in the buffer.
abbrev ready : Transaction
ready = record (copy 2 "c" "b") { rw_set = set_of "c" "b" "c" }

abbrev buffered : Database function_storage
buffered = record database { rw_set_buffer = set_entry 2 (some (set_of "c" "b" "c")) (λ k. none) }

commit_update-Commits_example :
    (d : Database function_storage) × (commit_update function_storage 2 buffered ≡ some (d, true))
    × Commits function_storage buffered (set_of "c" "b" "c") d
commit_update-Commits_example =
    commit_update-Commits function_storage 2 (set_of "c" "b" "c") buffered refl tt
