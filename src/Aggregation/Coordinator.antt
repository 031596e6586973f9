-- ===== src/Aggregation/Coordinator.antt =====
-- How a server of a cluster parts the transactions of an epoch: `createWorkload` of
-- src/block_server/coordinator/aggregation_coordinator.cpp. Its own go into workloads at once, the
-- others into a queue for the workloads of the aggregation.
use neu_chain.Prelude.{
  ℕ, zero, suc, Bool, true, false, Option, none, some, List, [], ◌∷◌, ◌++◌, ltb, length,
  if◌then◌else◌,
}
use neu_chain.Transaction.{Transaction}
use neu_chain.Coordinator.{Limits, goes_on}
use neu_chain.Coordinator.Queue.{TransactionQueue, front, pop, contents}
use neu_chain.Aggregation.Broadcaster.{
  Broadcaster, is_local_transaction, add_broadcast_transaction, add_listen_transaction,
}

pub record ClusterWorkload : Type 0 where
  pub epoch : ℕ
  pub transaction_list : List Transaction
  pub aggregation_workload : Bool

pub record Sharing : Type 0 where
  pub broadcaster : Broadcaster
  pub aggregation_queue : List Transaction

unfoldable pub first_some : ℕ → List Transaction → List Transaction × List Transaction
first_some zero ts = ([], ts)
first_some (suc n) [] = ([], [])
first_some (suc n) (t ∷ ts) = let (a, b) = first_some n ts in (t ∷ a, b)

unfoldable pub create_aggregation_workload : Limits → Sharing → Option ClusterWorkload × Sharing
create_aggregation_workload l sh =
    let (list, rest) = first_some l.max_tx sh.aggregation_queue in
    (
      elim list [
        | [] ↦ none
        | t ∷ ts ↦
            some
              (record { epoch = t.epoch; transaction_list = t ∷ ts; aggregation_workload = true })
      ],
      record sh { aggregation_queue = rest },
    )

-- The test in a round of the loop.
unfoldable pub take_transaction :
    Transaction → List Transaction × Sharing → List Transaction × Sharing
take_transaction t (list, sh) =
    if is_local_transaction t.tid sh.broadcaster
    then (list ++ t ∷ [], record sh { broadcaster = add_broadcast_transaction t sh.broadcaster })
    else (
      list,
      record {
        broadcaster = add_listen_transaction t sh.broadcaster;
        aggregation_queue = sh.aggregation_queue ++ t ∷ [];
      },
    )

-- The loop, with as many rounds of fuel as there are transactions.
unfoldable pub collect_cluster :
    Limits
    → ℕ
    → List Transaction × Sharing
    → Transaction
    → TransactionQueue
    → Option ((List Transaction × Sharing) × TransactionQueue)
unfolding goes_on
collect_cluster l zero acc t q = none
collect_cluster l (suc fuel) acc t q =
    let acc' = take_transaction t acc in
    elim (pop q) [
      | none ↦ none
      | some (_, q1) ↦ elim (front q1) [
        | none ↦ none
        | some (next, q2) ↦
            let more = goes_on l (length acc'.0) next q2 in
            let rest = collect_cluster l fuel acc' next more.1 in
            if more.0 then rest else some (acc', more.1)
      ]
    ]

-- What follows the loop.
unfoldable pub finish_cluster :
    Limits → ℕ → List Transaction × Sharing → Option ClusterWorkload × Sharing
finish_cluster l epoch (list, sh) = elim list [
  | [] ↦ create_aggregation_workload l sh
  | t ∷ ts ↦
      (some (record { epoch = epoch; transaction_list = t ∷ ts; aggregation_workload = false }), sh)
]

unfoldable pub create_cluster_workload :
    Limits
    → Sharing
    → TransactionQueue
    → Option ((Option ClusterWorkload × Sharing) × TransactionQueue)
unfolding collect_cluster
create_cluster_workload l sh q = elim (front q) [
  | none ↦ none
  | some (t, q1) ↦
      if ltb l.current_epoch t.epoch
      then some (create_aggregation_workload l sh, q1)
      else elim (collect_cluster l (length (contents q1)) ([], sh) t q1) [
        | none ↦ none
        | some (acc, q2) ↦ some (finish_cluster l t.epoch acc, q2)
      ]
]
