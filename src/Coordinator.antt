-- ===== src/Coordinator.antt =====
-- The coordinator, src/block_server/coordinator/aria_coordinator.cpp: how it cuts the transactions
-- of an epoch into workloads and gives each to a worker. The queue is seen at a moment: an
-- operation that would wait for the producer has no result.
pub mod Queue
pub mod Workloads
pub mod Phases
use neu_chain.Prelude.{
  ℕ, zero, suc, ◌+◌, String, Bool, true, false, not, ◌&&◌, ◌||◌, Option, none, some, List, [], ◌∷◌,
  ◌++◌, ltb, leb, ◌==◌, length, if◌then◌else◌,
}
use neu_chain.Transaction.{Transaction}
use neu_chain.Coordinator.Queue.{TransactionQueue, front, pop, is_empty, contents}

pub record Workload : Type 0 where
  pub epoch : ℕ
  pub transaction_list : List Transaction

-- What the loop of `createWorkload` goes by: the epoch that is assigned, and the sizes that
-- `WorkloadSizeAdapter` gives.
pub record Limits : Type 0 where
  pub current_epoch : ℕ
  pub min_tx : ℕ
  pub max_tx : ℕ

-- The test at the end of a round. `empty` may take a transaction from the queue.
unfoldable pub goes_on : Limits → ℕ → Transaction → TransactionQueue → Bool × TransactionQueue
goes_on l size t q =
    let small = leb size l.min_tx in
    let asked = if small then (false, q) else is_empty q in
    ((small || not asked.0) && (leb t.epoch l.current_epoch && ltb size l.max_tx), asked.1)

-- The rounds of the loop, each of which takes a transaction, that at the front, and waits for the
-- next. The fuel is the number of transactions there are.
unfoldable pub collect :
    Limits
    → ℕ
    → List Transaction
    → Transaction
    → TransactionQueue
    → Option (List Transaction × TransactionQueue)
unfolding goes_on
collect l zero taken t q = none
collect l (suc fuel) taken t q =
    let list = taken ++ t ∷ [] in
    elim (pop q) [
      | none ↦ none
      | some (_, q1) ↦ elim (front q1) [
        | none ↦ none
        | some (next, q2) ↦
            let more = goes_on l (length list) next q2 in
            let rest = collect l fuel list next more.1 in
            if more.0 then rest else some (list, more.1)
      ]
    ]

-- No workload, if the first transaction is of a later epoch.
unfoldable pub create_workload :
    Limits → TransactionQueue → Option (Option Workload × TransactionQueue)
unfolding collect
create_workload l q = elim (front q) [
  | none ↦ none
  | some (t, q1) ↦
      if ltb l.current_epoch t.epoch
      then some (none, q1)
      else elim (collect l (length (contents q1)) [] t q1) [
        | none ↦ none
        | some (list, q2) ↦ some (some (record { epoch = t.epoch; transaction_list = list }), q2)
      ]
]

-- The workloads of `assignWorkloadPhase`, until there is none.
unfoldable pub create_workloads :
    Limits → ℕ → TransactionQueue → Option (List Workload × TransactionQueue)
unfolding create_workload
create_workloads l zero q = none
create_workloads l (suc fuel) q = elim (create_workload l q) [
  | none ↦ none
  | some (none, q1) ↦ some ([], q1)
  | some (some w, q1) ↦ elim (create_workloads l fuel q1) [
    | none ↦ none
    | some (ws, q2) ↦ some (w ∷ ws, q2)
  ]
]
