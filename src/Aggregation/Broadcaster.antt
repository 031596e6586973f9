-- ===== src/Aggregation/Broadcaster.antt =====
-- How the servers of a cluster share the execution of an epoch:
-- src/block_server/coordinator/aggregation_broadcaster.cpp. Each runs the transactions that are its
-- own, sends what they have read and written, and takes the others' from the messages.
use neu_chain.Prelude.{
  ℕ, suc, ◌%◌, String, Bool, Option, none, some, List, [], ◌∷◌, ◌++◌, map, ◌==◌, ltb, length,
  if◌then◌else◌,
}
use neu_chain.HashMap.{find, put}
use neu_chain.RwSet.{KvRwSet}
use neu_chain.Consensus.{set_at}
use neu_chain.Transaction.{Transaction}
use neu_chain.Transaction.Wire.{Coding, Bytes, result_number, number_result}

-- `comm::AggregationExchange` and its nodes.
pub record ExchangeNode : Type 0 where
  pub tid : ℕ
  pub rw_set : Bytes
  pub result : ℕ

pub record Exchange : Type 0 where
  pub epoch : ℕ
  pub nodes : List ExchangeNode

-- The transactions of each epoch that others run, and those that this server runs: these in the
-- order of their ids.
pub record Broadcaster : Type 0 where
  pub local_id : ℕ
  pub total_server_count : ℕ
  pub broadcast_epoch : ℕ
  pub listen : ℕ → List (ℕ × Transaction)
  pub broadcast : ℕ → List (ℕ × Transaction)

-- How many names come before the local one.
unfoldable pub local_id_of : (String → String → Bool) → String → List String → ℕ
local_id_of before ip [] = 0
local_id_of before ip (j ∷ ips) =
    let rest = local_id_of before ip ips in if before j ip then suc rest else rest

abbrev pub new_broadcaster : (String → String → Bool) → String → List String → Option Broadcaster
new_broadcaster before ip ips =
    if ltb 1 (length ips)
    then some (record {
      local_id = local_id_of before ip ips;
      total_server_count = length ips;
      broadcast_epoch = 0;
      listen = λ e. [];
      broadcast = λ e. [];
    })
    else none

abbrev pub is_local_transaction : ℕ → Broadcaster → Bool
is_local_transaction tid b = tid % b.total_server_count == b.local_id

-- `map[tid] = transaction` of a `std::map`.
unfoldable pub insert_ordered : ℕ → Transaction → List (ℕ × Transaction) → List (ℕ × Transaction)
insert_ordered tid t [] = (tid, t) ∷ []
insert_ordered tid t ((j, u) ∷ m) =
    let rest = insert_ordered tid t m in
    if j == tid then (tid, t) ∷ m else if ltb tid j then (tid, t) ∷ (j, u) ∷ m else (j, u) ∷ rest

abbrev pub add_broadcast_transaction : Transaction → Broadcaster → Broadcaster
add_broadcast_transaction t b = record b {
  broadcast = set_at t.epoch (insert_ordered t.tid t (b.broadcast t.epoch)) b.broadcast;
}

abbrev pub add_listen_transaction : Transaction → Broadcaster → Broadcaster
add_listen_transaction t b = record b {
  listen = set_at t.epoch (put ◌==◌ t.tid t (b.listen t.epoch)) b.listen;
}

module _ (c : Coding) where
  open c use {serialize_rw_set, parse_rw_set}

  abbrev pub node_of : ℕ × Transaction → ExchangeNode
  node_of (tid, t) = record {
    tid = tid;
    rw_set = serialize_rw_set t.rw_set;
    result = result_number t.result;
  }

  abbrev pub exchange_of : ℕ → List (ℕ × Transaction) → Exchange
  exchange_of epoch m = record { epoch = epoch; nodes = map node_of m }

  -- One node: the transaction that waits for it, and the call of `bufferUpdates`. A `CHECK` stops the
  -- process where none waits; a set that is none, or a number that is no result, has no result here.
  unfoldable pub receive_node :
      ExchangeNode → List (ℕ × Transaction) → Option (List (ℕ × Transaction) × (ℕ × KvRwSet))
  receive_node node waiting = elim (find ◌==◌ node.tid waiting) [
    | none ↦ none
    | some t ↦ elim (number_result node.result) [
      | none ↦ none
      | some r ↦ elim (parse_rw_set node.rw_set) [
        | none ↦ none
        | some set ↦
            some (put ◌==◌ node.tid (record t { result = r; rw_set = set }) waiting, (t.tid, set))
      ]
    ]
  ]

  unfoldable pub receive_nodes :
      List ExchangeNode
      → List (ℕ × Transaction)
      → Option (List (ℕ × Transaction) × List (ℕ × KvRwSet))
  receive_nodes [] waiting = some (waiting, [])
  receive_nodes (node ∷ nodes) waiting = elim (receive_node node waiting) [
    | none ↦ none
    | some (waiting', call) ↦ elim (receive_nodes nodes waiting') [
      | none ↦ none
      | some (waiting'', calls) ↦ some (waiting'', call ∷ calls)
    ]
  ]

  -- The messages of the other servers, one worker for each.
  unfoldable pub receive_exchanges :
      ℕ
      → List Exchange
      → List (ℕ × Transaction)
      → Option (List (ℕ × Transaction) × List (ℕ × KvRwSet))
  receive_exchanges epoch [] waiting = some (waiting, [])
  receive_exchanges epoch (x ∷ xs) waiting =
      if epoch == x.epoch
      then elim (receive_nodes x.nodes waiting) [
        | none ↦ none
        | some (waiting', calls) ↦ elim (receive_exchanges epoch xs waiting') [
          | none ↦ none
          | some (waiting'', calls') ↦ some (waiting'', calls ++ calls')
        ]
      ]
      else none

  -- What `aggregateTransaction` leaves: the message that it sends, the transactions of the others
  -- with their sets and results, and the calls of `bufferUpdates`.
  pub record Aggregated : Type 0 where
    pub after : Broadcaster
    pub sent : Exchange
    pub received : List (ℕ × Transaction)
    pub buffered : List (ℕ × KvRwSet)

  -- Nothing, when a check stops it; nothing aggregated, when the epoch has been.
  unfoldable pub aggregate_transaction :
      ℕ → List Exchange → Broadcaster → Option (Option Aggregated)
  aggregate_transaction epoch incoming b =
      if b.broadcast_epoch == epoch
      then some none
      else elim (receive_exchanges epoch incoming (b.listen epoch)) [
        | none ↦ none
        | some (waiting, calls) ↦ some (
            some (record {
              after = record b {
                broadcast_epoch = epoch;
                listen = set_at epoch [] b.listen;
                broadcast = set_at epoch [] b.broadcast;
              };
              sent = exchange_of epoch (b.broadcast epoch);
              received = waiting;
              buffered = calls;
            }))
      ]
