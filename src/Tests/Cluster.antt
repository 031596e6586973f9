-- ===== src/Tests/Cluster.antt =====
-- The theorem on the exchange of a cluster at a concrete input: three servers, of which this one
-- waits for two transactions, of one server each.
use neu_chain.Prelude.{ℕ, ◌≡◌, refl, some, List, [], ◌∷◌, map, ◌==◌, arith}
use neu_chain.HashMap.{find}
use neu_chain.Transaction.{commit, abort_no_retry}
use neu_chain.Aggregation.Broadcaster.{
  Broadcaster, Aggregated, add_listen_transaction, add_broadcast_transaction, exchange_of,
  aggregate_transaction,
}
use neu_chain.Aggregation.Entries.{Entries, flat, taken}
use neu_chain.Aggregation.Agrees.{Awaited, calls_for, aggregate_transaction-Takes}
use neu_chain.Tests.Data.{copy, set_of}
use neu_chain.Tests.Wire.{plain}

abbrev pub nobody : Broadcaster
nobody = record {
  local_id = 0;
  total_server_count = 3;
  broadcast_epoch = 3;
  listen = λ e. [];
  broadcast = λ e. [];
}

abbrev listening : Broadcaster
listening =
    add_broadcast_transaction (copy 3 "e" "f")
      (add_listen_transaction (copy 2 "c" "d") (add_listen_transaction (copy 1 "a" "b") nobody))

abbrev found : List Entries
found =
    ((1, record (copy 1 "a" "b") { rw_set = set_of "a" "b" "a"; result = commit }) ∷ [])
    ∷ ((2, record (copy 2 "c" "d") { result = abort_no_retry }) ∷ [])
    ∷ []

awaited : Awaited (listening.listen 4) (flat found)
unfolding find neu_chain.HashMap.erase
awaited = ((copy 1 "a" "b", refl, refl), ((copy 2 "c" "d", refl, refl), tt))

aggregate_transaction-Takes_example :
    (a : Aggregated plain) × (aggregate_transaction plain 4
        (map (exchange_of plain 4) found)
        listening
      ≡ some (some a))
    × ((k : ℕ)
        → find ◌==◌ k a.received
          ≡ taken (find ◌==◌ k (flat found)) (find ◌==◌ k (listening.listen 4)))
    × (a.buffered ≡ calls_for (flat found))
    × (a.sent ≡ exchange_of plain 4 (listening.broadcast 4))
    × (a.after.broadcast_epoch ≡ 4)
unfolding neu_chain.Aggregation.Broadcaster.insert_ordered
aggregate_transaction-Takes_example =
    aggregate_transaction-Takes plain 4 found listening (λ p. ground (arith, p))
      ((λ p. ground (arith, p), tt), (tt, tt)) awaited
