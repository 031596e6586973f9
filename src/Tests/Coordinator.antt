-- ===== src/Tests/Coordinator.antt =====
-- The theorems on the coordinator at concrete queues and workers.
use neu_chain.Prelude.{ℕ, ◌≤◌, ◌⊎◌, false, ◌≡◌, ◌≢◌, refl, inl, inr, some, List, [], ◌∷◌, arith}
use neu_chain.Transaction.{Transaction}
use neu_chain.Coordinator.{Workload, Limits, create_workloads}
use neu_chain.Coordinator.Queue.{TransactionQueue}
use neu_chain.Coordinator.Workloads.{Assigns, create_workloads-Assigns}
use neu_chain.Coordinator.Phases.{
  Worker, System, assigning, syncing_read, assigned, aria_read, reading, committing, start_reading,
  Step, assigns_new, acts_left, new_worker, Reach, here, next, hears, receives,
}
use neu_chain.Coordinator.Phases.Barrier.{Reach-apart, Reach-CanStep}
use neu_chain.Tests.Data.{copy}

abbrev in_epoch : ℕ → ℕ → Transaction
in_epoch e tid = record (copy tid "a" "b") { epoch = e }

abbrev limits : Limits
limits = record { current_epoch = 4; min_tx = 1; max_tx = 2 }

abbrev queue : TransactionQueue
queue = record {
  waiting = in_epoch 4 2 ∷ in_epoch 4 3 ∷ in_epoch 5 4 ∷ [];
  slot = some (in_epoch 4 1);
}

create_workloads-Assigns_example :
    (ws : List Workload) × (q : TransactionQueue) × (create_workloads limits 4 queue ≡ some (ws, q))
    × Assigns limits (in_epoch 4 1 ∷ in_epoch 4 2 ∷ in_epoch 4 3 ∷ []) (in_epoch 5 4) [] ws q
create_workloads-Assigns_example =
    create_workloads-Assigns limits (in_epoch 4 1 ∷ in_epoch 4 2 ∷ in_epoch 4 3 ∷ []) (in_epoch 5 4)
      [] queue refl (omega arith) (omega arith)

-- One worker reads while another is still to begin.
abbrev busy : Worker
busy = record { state = assigned; signal = aria_read; line = reading }

abbrev two_workers : System
two_workers = record {
  epoch = 4;
  received = 5;
  approved = λ e. false;
  phase = assigning;
  passed = [];
  left = busy ∷ new_worker ∷ [];
}

started : Reach 4 two_workers
started =
    next
      (next (next (hears here (receives 5 (omega arith) refl)) (assigns_new refl tt refl))
        (acts_left [] [] new_worker busy refl refl (start_reading refl refl refl)))
      (assigns_new refl ((λ h. cc), tt) refl)

Reach-apart_example : new_worker.line ≢ committing
Reach-apart_example =
    Reach-apart two_workers busy new_worker started (inl refl) (inr (inl refl)) refl

Reach-CanStep_example :
    ((u : System) × Step two_workers u)
    ⊎ ((two_workers.phase ≡ assigning) × (two_workers.received ≤ two_workers.epoch))
    ⊎ ((two_workers.phase ≡ syncing_read)
        × (two_workers.left ≡ [])
        × (two_workers.approved two_workers.epoch ≡ false))
Reach-CanStep_example = Reach-CanStep two_workers started
