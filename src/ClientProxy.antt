-- ===== src/ClientProxy.antt =====
-- How block servers pass on the transactions of their users, block by block of an epoch:
-- src/block_server/comm/client_proxy/client_proxy.cpp. Each server has one local proxy, which sends,
-- and one remote proxy for each other server, which receives; the queues and sockets between
-- keep the order of messages.
pub mod Local
pub mod Remote
pub mod Proofs
pub mod Sends
pub mod Follows
pub mod Honest
pub mod Workers
pub mod Checks
pub mod Collector
use neu_chain.Prelude.{
  ℕ, zero, suc, ◌+◌, ◌-◌, ◌*◌, ◌/◌, ◌%◌, ◌^◌, ◌≡◌, String, Bool, true, false, not, ◌&&◌, Option,
  none, some, List, [], ◌∷◌, ◌++◌, map, ◌==◌, ltb, leb, length, if◌then◌else◌,
}
use neu_chain.Transaction.{Transaction, new_transaction}
use neu_chain.Transaction.Wire.{
  Coding, Bytes, failed, dead, unnamed, reads_on, serialize_to_string, deserialize_from_string,
}
use neu_chain.Consensus.{ProofType, tx, con, heartbeat, malicious}

-- `comm::EpochResponse`, with the fields of its request.
pub record EpochResponse : Type 0 where
  pub epoch : ℕ
  pub request_batch_size : ℕ
  pub batch_hash : Bytes
  pub nonce : ℕ
  pub signature : Bytes

-- `comm::TransactionsWithProof`.
pub record TransactionSet : Type 0 where
  pub epoch : ℕ
  pub type : ProofType
  pub proof : Bytes
  pub ip : String
  pub data_list : List Bytes

-- What is used of protobuf, the hash function and the two signatures.
pub record Network : Type 0 where
  pub coding : Coding
  pub sha256 : Bytes → Bytes
  pub user_signed : Bytes → Bytes → Bool
  pub epoch_signed : Bytes → Bytes → Bool
  pub parse_response : Bytes → EpochResponse
  pub serialize_set : TransactionSet → Bytes
  pub parse_set : Bytes → Option TransactionSet
  pub parse_set-serialize : (m : TransactionSet) → parse_set (serialize_set m) ≡ some m

-- What a proxy does with its buffer of transactions.
pub data BufferCall : Type 0 where
  push_transaction : Transaction → BufferCall
  async_empty : ℕ → BufferCall

unfoldable pub same_bytes : Bytes → Bytes → Bool
same_bytes [] [] = true
same_bytes [] (y ∷ b) = false
same_bytes (x ∷ a) [] = false
same_bytes (x ∷ a) (y ∷ b) = (x == y) && same_bytes a b

-- The first bytes of a digest as a number, the lowest first.
unfoldable pub le_number : ℕ → Bytes → ℕ
le_number zero b = 0
le_number (suc k) [] = 0
le_number (suc k) (x ∷ b) = x + 256 * le_number k b

abbrev pub next_epoch : ℕ → ℕ
next_epoch e = (e + 1) % 2 ^ 64

module _ (w : Network) where
  open w use {coding, sha256, user_signed, epoch_signed, parse_response, serialize_set, parse_set}

  abbrev pub digest : Transaction → Bytes
  digest t = coding.bytes t.payload.digest

  unfoldable pub digests : List Transaction → Bytes
  digests [] = []
  digests (t ∷ ts) = digest t ++ digests ts

  -- The id that both sides give to a transaction.
  unfoldable pub with_id : Bytes → Transaction → Transaction
  with_id signature t = record t { tid = le_number 8 (sha256 (signature ++ digest t)) }
