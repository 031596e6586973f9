-- ===== src/ClientProxy/Local.antt =====
-- The local proxy: `receiveFromLocalServer`, with the messages that it sends to the remote proxies.
use neu_chain.Prelude.{
  ℕ, zero, suc, ◌-◌, String, Option, none, some, List, [], ◌∷◌, ◌++◌, map, ◌==◌, if◌then◌else◌,
}
use neu_chain.Transaction.{Transaction}
use neu_chain.Transaction.Wire.{Bytes, serialize_to_string}
use neu_chain.Consensus.{tx, con}
use neu_chain.ClientProxy.{
  BufferCall, Network, TransactionSet, async_empty, next_epoch, push_transaction, with_id,
}

pub record LocalProxy : Type 0 where
  pub epoch : ℕ
  pub proof_data : List Bytes

-- The messages to the remote proxies, those to the consensus, and the calls of the buffer.
pub record Emitted : Type 0 where
  pub sent : List Bytes
  pub signals : List Bytes
  pub calls : List BufferCall

abbrev pub nothing : Emitted
nothing = record { sent = []; signals = []; calls = [] }

abbrev pub emit : Emitted → Emitted → Emitted
emit a b = record {
  sent = a.sent ++ b.sent;
  signals = a.signals ++ b.signals;
  calls = a.calls ++ b.calls;
}

module _ (w : Network) where
  open w use {coding, parse_response, serialize_set}

  -- One round for each epoch that is over: the proofs of the epoch go out.
  abbrev pub proof_set : String → LocalProxy → TransactionSet
  proof_set ip s = record {
    epoch = s.epoch;
    type = con;
    proof = [];
    ip = ip;
    data_list = s.proof_data;
  }

  unfoldable pub close_epochs : String → ℕ → LocalProxy → LocalProxy × Emitted
  close_epochs ip zero s = (s, nothing)
  close_epochs ip (suc rounds) s =
      let raw = serialize_set (proof_set ip s) in
      let (s', out) =
        close_epochs ip rounds (record { epoch = next_epoch s.epoch; proof_data = [] }) in
      (
        s',
        emit (record { sent = raw ∷ []; signals = raw ∷ []; calls = async_empty s.epoch ∷ [] }) out,
      )

  -- Each transaction is serialized before it gets its id.
  unfoldable pub send_transactions :
      ℕ → Bytes → List Transaction → Option (List Bytes × List Transaction)
  send_transactions epoch signature [] = some ([], [])
  send_transactions epoch signature (t ∷ ts) =
      let rest = send_transactions epoch signature ts in
      if epoch == t.epoch
      then elim (serialize_to_string coding t) [
        | none ↦ none
        | some raw ↦ elim rest [
          | none ↦ none
          | some (raws, out) ↦ some (raw ∷ raws, with_id w signature t ∷ out)
        ]
      ]
      else none

  abbrev pub transaction_set : ℕ → Bytes → List Bytes → TransactionSet
  transaction_set epoch response_raw raws = record {
    epoch = epoch;
    type = tx;
    proof = response_raw;
    ip = "";
    data_list = raws;
  }

  -- `receiveFromLocalServer`, one batch.
  unfoldable pub receive_local :
      String → Bytes → List Transaction → LocalProxy → Option (LocalProxy × Emitted)
  receive_local ip response_raw transactions s0 =
      let response = parse_response response_raw in
      let (s, out) = close_epochs ip (response.epoch - s0.epoch) s0 in
      if s.epoch == response.epoch
      then elim (send_transactions s.epoch response.signature transactions) [
        | none ↦ none
        | some (raws, pushed) ↦ some (
          record s { proof_data = s.proof_data ++ response.signature ∷ [] },
          emit out (record {
            sent = serialize_set (transaction_set s.epoch response_raw raws) ∷ [];
            signals = [];
            calls = map push_transaction pushed;
          }),
        )
      ]
      else none

  -- The loop of the local proxy.
  unfoldable pub run_local :
      String → List (Bytes × List Transaction) → LocalProxy → Option (LocalProxy × Emitted)
  run_local ip [] s = some (s, nothing)
  run_local ip ((raw, ts) ∷ bs) s = elim (receive_local ip raw ts s) [
    | none ↦ none
    | some (s1, out) ↦ elim (run_local ip bs s1) [
      | none ↦ none
      | some (s2, out') ↦ some (s2, emit out out')
    ]
  ]
