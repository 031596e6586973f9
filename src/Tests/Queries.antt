-- ===== src/Tests/Queries.antt =====
-- The theorem on the executor for read-only transactions at a concrete list.
use neu_chain.Prelude.{refl, true, List, [], ◌∷◌}
use neu_chain.Transaction.{Transaction, commit, abort_no_retry}
use neu_chain.QueryExecutor.{Answers, Snapshot, execute_query_list, execute_query_list-Snapshot}
use neu_chain.Tests.Data.{copy, copy_chaincode, set_of, values}

-- A transaction that is not read-only stands between two that are.
abbrev queries : List Transaction
queries =
    record (copy 1 "a" "b") { read_only = true }
    ∷ copy 2 "c" "b"
    ∷ record (copy 3 "c" "d") { read_only = true }
    ∷ []

abbrev answers : Answers copy_chaincode
answers = (
  true,
  record (copy 1 "a" "b") { read_only = true; rw_set = set_of "a" "b" "a"; result = commit }
      ∷ record (copy 2 "c" "b") { result = abort_no_retry }
      ∷ record (copy 3 "c" "d") { read_only = true; rw_set = set_of "c" "d" "c"; result = commit }
      ∷ [],
  values,
)

execute_query_list-Snapshot_example : Snapshot copy_chaincode values queries answers
unfolding execute_query_list
execute_query_list-Snapshot_example =
    execute_query_list-Snapshot copy_chaincode queries values answers (refl, (refl, (refl, tt)))
      refl
