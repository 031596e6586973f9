-- ===== src/Tests/Parts.antt =====
-- The theorem on how a server of a cluster parts an epoch, at a queue of three transactions.
use neu_chain.Prelude.{◌≡◌, refl, Option, none, some, List, [], ◌∷◌, ◌++◌, arith}
use neu_chain.Transaction.{Transaction}
use neu_chain.Coordinator.{Limits}
use neu_chain.Coordinator.Queue.{TransactionQueue}
use neu_chain.Aggregation.Coordinator.{ClusterWorkload, Sharing, create_cluster_workload}
use neu_chain.Aggregation.Finish.{Finishes}
use neu_chain.Aggregation.Parts.{own, others, start, create_cluster_workload-parts}
use neu_chain.Tests.Data.{copy}
use neu_chain.Tests.Cluster.{nobody}

abbrev limits : Limits
limits = record { current_epoch = 4; min_tx = 1; max_tx = 10 }

abbrev late : Transaction
late = record (copy 9 "a" "b") { epoch = 5 }

abbrev queue : TransactionQueue
queue = record { waiting = copy 1 "a" "b" ∷ copy 3 "c" "d" ∷ late ∷ []; slot = none }

abbrev sharing : Sharing
sharing = record { broadcaster = nobody; aggregation_queue = [] }

create_cluster_workload-parts_example :
    (p : List Transaction) × (b : List Transaction) × (out : Option ClusterWorkload × Sharing)
    × (create_cluster_workload limits sharing queue ≡ some (out, start limits b late []))
    × (p ++ b ≡ copy 3 "c" "d" ∷ [])
    × Finishes limits 4
        (own nobody (copy 1 "a" "b" ∷ p))
        ([] ++ others nobody (copy 1 "a" "b" ∷ p))
        out
create_cluster_workload-parts_example =
    create_cluster_workload-parts limits sharing queue (copy 1 "a" "b") (copy 3 "c" "d" ∷ []) late
      [] refl (omega arith) (omega arith)
