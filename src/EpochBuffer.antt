-- ===== src/EpochBuffer.antt =====
-- How the proxies of a server hand over their transactions epoch by epoch:
-- include/block_server/comm/client_proxy/epoch_transaction_buffer.h and epoch_txn_queue_manager.h.
-- Each proxy has a buffer with a worker; the workers meet at a barrier once in each epoch.
pub mod Invariant
pub mod Steps
pub mod History
pub mod Order
use neu_chain.Prelude.{
  ℕ, suc, ◌≡◌, ◌<◌, Bool, true, false, not, ◌&&◌, Option, none, some, List, [], ◌∷◌, ◌++◌, ◌==◌,
  ltb, if◌then◌else◌,
}
use neu_chain.Transaction.{Transaction}
use neu_chain.Consensus.{set_at}

pub record QueueManager : Type 0 where
  pub block_server_count : ℕ
  pub global_processing_epoch : ℕ
  pub pushed_count : ℕ

abbrev pub new_queue_manager : ℕ → ℕ → QueueManager
new_queue_manager start n = record {
  block_server_count = n;
  global_processing_epoch = start;
  pushed_count = n;
}

-- The action of the barrier, which the last of the workers runs that arrive.
abbrev pub barrier_action : QueueManager → QueueManager
barrier_action m = record m {
  pushed_count = 0;
  global_processing_epoch = suc m.global_processing_epoch;
}

abbrev pub signal_finished : QueueManager → QueueManager
signal_finished m = record m { pushed_count = suc m.pushed_count }

unfoldable pub is_all_pushed : ℕ → QueueManager → Option Bool
is_all_pushed epoch m =
    if ltb m.global_processing_epoch epoch
    then some false
    else if epoch == m.global_processing_epoch
    then some (not (ltb m.pushed_count m.block_server_count))
    else none

-- The queues of a buffer, one for each epoch, and the tasks that are left for its worker.
pub record Buffer : Type 0 where
  pub queues : ℕ → List Transaction
  pub workload : List ℕ

-- All of a queue, the front first, with a `CHECK` of each epoch.
unfoldable pub check_epochs : ℕ → List Transaction → Bool
check_epochs epoch [] = true
check_epochs epoch (t ∷ ts) = (t.epoch == epoch) && check_epochs epoch ts

unfoldable pub sync_empty_buffer : ℕ → Buffer → Option (List Transaction × Buffer)
sync_empty_buffer epoch b =
    if check_epochs epoch (b.queues epoch)
    then some (b.queues epoch, record b { queues = set_at epoch [] b.queues })
    else none

abbrev pub push_queue : Transaction → Buffer → Buffer
push_queue t b = record b { queues = set_at t.epoch (b.queues t.epoch ++ t ∷ []) b.queues }

-- `pushTransactionToBuffer`, with the transactions that are handled at once.
unfoldable pub push_to_buffer :
    Bool → Transaction → QueueManager → Buffer → Option (List Transaction × Buffer)
push_to_buffer eager t m b =
    if eager
    then elim (is_all_pushed t.epoch m) [
      | none ↦ none
      | some true ↦ elim (sync_empty_buffer t.epoch b) [
        | none ↦ none
        | some (ts, b') ↦ some (ts ++ t ∷ [], b')
      ]
      | some false ↦ some ([], push_queue t b)
    ]
    else some ([], push_queue t b)

abbrev pub async_empty_buffer : ℕ → Buffer → Buffer
async_empty_buffer epoch b = record b { workload = b.workload ++ epoch ∷ [] }

-- What a task does behind the barrier.
unfoldable pub finish_task : Bool → ℕ → Buffer → Option (List Transaction × Buffer)
finish_task eager epoch b = if eager then some ([], b) else sync_empty_buffer epoch b

-- A worker has no task, waits at the barrier, or has passed it.
pub data Phase : Type 0 where
  idle : Phase
  waiting : ℕ → Phase
  emptying : ℕ → Phase

abbrev pub released : Phase → Phase
released idle = idle
released (waiting epoch) = emptying epoch
released (emptying epoch) = emptying epoch

-- A proxy: its epoch, its buffer and its worker.
pub record Proxy : Type 0 where
  pub epoch : ℕ
  pub buffer : Buffer
  pub worker : Phase

-- All proxies, and the transactions that have been handled, in their order.
pub record System : Type 0 where
  pub manager : QueueManager
  pub proxies : ℕ → Proxy
  pub handled : List Transaction

abbrev pub new_system : ℕ → ℕ → System
new_system start n = record {
  manager = new_queue_manager start n;
  proxies = λ i. record {
    epoch = start;
    buffer = record { queues = λ e. []; workload = [] };
    worker = idle;
  };
  handled = [];
}

-- What may happen, with n proxies: one of them pushes a transaction of its epoch, or ends the epoch;
-- a worker takes its next task and arrives at the barrier; all leave it; a worker does the rest of
-- its task.
pub data Step (eager : Bool) (n : ℕ) : System → System → Type 0 where
  pushes :
      {s : System} (i : ℕ) (t : Transaction) {ts : List Transaction} {b : Buffer}
      → i < n
      → t.epoch ≡ (s.proxies i).epoch
      → push_to_buffer eager t s.manager (s.proxies i).buffer ≡ some (ts, b)
      → Step eager n s (record s {
        proxies = set_at i (record (s.proxies i) { buffer = b }) s.proxies;
        handled = s.handled ++ ts;
      })
  ends :
      {s : System} (i : ℕ)
      → i < n
      → Step eager n s (record s {
        proxies =
            set_at i
              (record (s.proxies i) {
                buffer = async_empty_buffer (s.proxies i).epoch (s.proxies i).buffer;
                epoch = suc (s.proxies i).epoch;
              })
              s.proxies;
      })
  arrives :
      {s : System} (i epoch : ℕ) {l : List ℕ}
      → i < n
      → (s.proxies i).worker ≡ idle
      → (s.proxies i).buffer.workload ≡ epoch ∷ l
      → Step eager n s (record s {
        proxies =
            set_at i
              (record (s.proxies i) {
                buffer = record (s.proxies i).buffer { workload = l };
                worker = waiting epoch;
              })
              s.proxies;
      })
  releases :
      {s : System}
      → ((i : ℕ) → i < n → (epoch : ℕ) × ((s.proxies i).worker ≡ waiting epoch))
      → Step eager n s (record s {
        manager = barrier_action s.manager;
        proxies = λ i. record (s.proxies i) { worker = released (s.proxies i).worker };
      })
  finishes :
      {s : System} (i epoch : ℕ) {ts : List Transaction} {b : Buffer}
      → i < n
      → (s.proxies i).worker ≡ emptying epoch
      → finish_task eager epoch (s.proxies i).buffer ≡ some (ts, b)
      → Step eager n s (record s {
        manager = signal_finished s.manager;
        proxies = set_at i (record (s.proxies i) { buffer = b; worker = idle }) s.proxies;
        handled = s.handled ++ ts;
      })

pub data Reach (eager : Bool) (n start : ℕ) : System → Type 0 where
  starts : Reach eager n start (new_system start n)
  steps : {s t : System} → Reach eager n start s → Step eager n s t → Reach eager n start t
