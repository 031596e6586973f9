-- ===== src/Coordinator/Phases.antt =====
-- The phases of an epoch: `AriaCoordinator::run` (src/block_server/coordinator/aria_coordinator.cpp)
-- and any number of `AriaWorker::run` (src/block_server/worker/aria_worker.cpp), which act on each
-- other by the states and signals of include/block_server/worker/worker_instance.h, in any
-- interleaving, with the two waits of the coordinator for what comes from outside: for transactions
-- in its queue, and in `waitUntilCurrentEpochFinish` for the consensus on the epoch.
pub mod Invariant
pub mod Steps
pub mod Barrier
use neu_chain.Prelude.{
  ℕ, suc, ◌≤◌, ◌<◌, ◌≡◌, ◌≢◌, Bool, true, false, if◌then◌else◌, List, [], ◌∷◌, ◌++◌, All, ◌⊎◌,
}
use neu_chain.Consensus.{set_at}

pub data WorkerState : Type 0 where
  ready assigned finish_read finish_aggregate exited : WorkerState

pub data AriaGlobalState : Type 0 where
  start aria_read aria_commit exit aggregate : AriaGlobalState

-- Where a worker is in its loop: before, in and after the two calls of the executor.
pub data Line : Type 0 where
  waiting_read reading waiting_commit committing stopped : Line

pub record Worker : Type 0 where
  pub state : WorkerState
  pub signal : AriaGlobalState
  pub line : Line

-- What a worker does: `workerWait` returns, or a list has been executed or committed.
pub data Act (a b : Worker) : Type 0 where
  start_reading :
      a.line ≡ waiting_read → a.signal ≡ aria_read → b ≡ record a { line = reading } → Act a b
  finish_reading :
      a.line ≡ reading → b ≡ record a { line = waiting_commit; state = finish_read } → Act a b
  start_committing :
      a.line ≡ waiting_commit
      → a.signal ≡ aria_commit
      → b ≡ record a { line = committing }
      → Act a b
  finish_committing :
      a.line ≡ committing → b ≡ record a { line = waiting_read; state = ready } → Act a b
  stop_before_read :
      a.line ≡ waiting_read
      → a.signal ≡ exit
      → b ≡ record a { line = stopped; state = exited }
      → Act a b
  stop_before_commit :
      a.line ≡ waiting_commit
      → a.signal ≡ exit
      → b ≡ record a { line = stopped; state = exited }
      → Act a b

-- Where the coordinator is: it assigns workloads, or is in one of its loops over the workers.
pub data Phase : Type 0 where
  assigning broadcasting_read syncing_read broadcasting_commit syncing_commit : Phase

-- The workers in the order of the map, those that the current loop has passed first. The queue has
-- transactions up to the epoch `received`, and `approved` has the epochs that all servers have
-- confirmed.
pub record System : Type 0 where
  pub epoch : ℕ
  pub received : ℕ
  pub approved : ℕ → Bool
  pub phase : Phase
  pub passed : List Worker
  pub left : List Worker

abbrev pub is_ready : WorkerState → Bool
is_ready ready = true
is_ready _ = false

-- One round of `broadcastToAllWorkers`: a worker without a task is passed over.
abbrev pub signalled : AriaGlobalState → Worker → Worker
signalled g w = if is_ready w.state then w else record w { signal = g }

-- The worker that `deployWorkload` and `assignWorkloadPhase` leave: it has a task, and the signal.
-- (A worker that waits for the signal does nothing between the two.)
abbrev pub deployed : Worker → Worker
deployed w = record w { state = assigned; signal = aria_read }

abbrev pub new_worker : Worker
new_worker = record { state = assigned; signal = aria_read; line = waiting_read }

-- A loop has passed one more worker, which is now as given.
abbrev pub passes : System → Worker → List Worker → System
passes s w ws = record s { passed = s.passed ++ w ∷ []; left = ws }

-- A loop is at its end, and the next begins with the first worker.
abbrev pub proceeds : System → Phase → System
proceeds s p = record s { phase = p; passed = []; left = s.passed }

-- What the coordinator and the workers do. A workload may be cut from the queue at any time of the
-- assignment; `createWorkload` gives none, and ends it, once the queue has a transaction of a later
-- epoch at its front, and waits while the queue is empty.
pub data Step (s u : System) : Type 0 where
  acts_passed :
      (before after : List Worker) (a b : Worker)
      → s.passed ≡ before ++ a ∷ after
      → u ≡ record s { passed = before ++ b ∷ after }
      → Act a b
      → Step s u
  acts_left :
      (before after : List Worker) (a b : Worker)
      → s.left ≡ before ++ a ∷ after
      → u ≡ record s { left = before ++ b ∷ after }
      → Act a b
      → Step s u
  assigns :
      (before after : List Worker) (a : Worker)
      → s.phase ≡ assigning
      → s.left ≡ before ++ a ∷ after
      → All (λ w. w.state ≢ ready) before
      → a.state ≡ ready
      → u ≡ record s { left = before ++ deployed a ∷ after }
      → Step s u
  assigns_new :
      s.phase ≡ assigning
      → All (λ w. w.state ≢ ready) s.left
      → u ≡ record s { left = s.left ++ new_worker ∷ [] }
      → Step s u
  ends_assignment :
      s.phase ≡ assigning
      → s.epoch < s.received
      → u ≡ record s { phase = broadcasting_read }
      → Step s u
  sends_read :
      (w : Worker) (ws : List Worker)
      → s.phase ≡ broadcasting_read
      → s.left ≡ w ∷ ws
      → u ≡ passes s (signalled aria_read w) ws
      → Step s u
  sees_read :
      (w : Worker) (ws : List Worker)
      → s.phase ≡ syncing_read
      → s.left ≡ w ∷ ws
      → (w.state ≡ ready) ⊎ (w.state ≡ finish_read)
      → u ≡ passes s w ws
      → Step s u
  sends_commit :
      (w : Worker) (ws : List Worker)
      → s.phase ≡ broadcasting_commit
      → s.left ≡ w ∷ ws
      → u ≡ passes s (signalled aria_commit w) ws
      → Step s u
  sees_commit :
      (w : Worker) (ws : List Worker)
      → s.phase ≡ syncing_commit
      → s.left ≡ w ∷ ws
      → w.state ≡ ready
      → u ≡ passes s w ws
      → Step s u
  syncs_read : s.phase ≡ broadcasting_read → s.left ≡ [] → u ≡ proceeds s syncing_read → Step s u
  begins_commit :
      s.phase ≡ syncing_read
      → s.left ≡ []
      → s.approved s.epoch ≡ true
      → u ≡ proceeds s broadcasting_commit
      → Step s u
  syncs_commit :
      s.phase ≡ broadcasting_commit → s.left ≡ [] → u ≡ proceeds s syncing_commit → Step s u
  next_epoch :
      s.phase ≡ syncing_commit
      → s.left ≡ []
      → u ≡ record (proceeds s assigning) { epoch = suc s.epoch }
      → Step s u

-- What comes from outside: transactions of the last epoch or a later one, and the consensus on an
-- epoch.
pub data Event (s u : System) : Type 0 where
  receives : (e : ℕ) → s.received ≤ e → u ≡ record s { received = e } → Event s u
  approves : (e : ℕ) → u ≡ record s { approved = set_at e true s.approved } → Event s u

-- The coordinator begins without workers, at its startup epoch.
abbrev pub initial : ℕ → System
initial first = record {
  epoch = first;
  received = 0;
  approved = λ e. false;
  phase = assigning;
  passed = [];
  left = [];
}

pub data Reach (first : ℕ) : System → Type 0 where
  here : Reach first (initial first)
  next : {s u : System} → Reach first s → Step s u → Reach first u
  hears : {s u : System} → Reach first s → Event s u → Reach first u
