-- ===== src/Transaction.antt =====
-- A transaction, include/block_server/transaction/transaction.h and
-- src/block_server/transaction/mock/mock_transaction.cpp.
pub mod Wire
use neu_chain.Prelude.{ℕ, String, Bool, true, false, Option, none, some, leb, not, if◌then◌else◌}
use neu_chain.RwSet.{KvRwSet, empty_rw_set}

pub data TransactionResult : Type 0 where
  commit pending abort abort_no_retry : TransactionResult

-- `== TransactionResult::ABORT_NO_RETRY`, and so on.
abbrev pub is_abort_no_retry : TransactionResult → Bool
is_abort_no_retry abort_no_retry = true
is_abort_no_retry _ = false

abbrev pub is_abort : TransactionResult → Bool
is_abort abort = true
is_abort _ = false

abbrev pub is_commit : TransactionResult → Bool
is_commit commit = true
is_commit _ = false

-- include/proto/transaction.proto.
pub record TransactionPayload : Type 0 where
  pub header : String
  pub payload : String
  pub nonce : ℕ
  pub digest : String

abbrev pub empty_payload : TransactionPayload
empty_payload = record { header = ""; payload = ""; nonce = 0; digest = "" }

pub record Transaction : Type 0 where
  pub epoch : ℕ
  pub tid : ℕ
  pub read_only : Bool
  pub rw_set : KvRwSet
  pub result : TransactionResult
  pub payload : TransactionPayload

-- `MockTransaction()`.
abbrev pub new_transaction : Transaction
new_transaction = record {
  epoch = 0;
  tid = 0;
  read_only = true;
  rw_set = empty_rw_set;
  result = pending;
  payload = empty_payload;
}

-- The id and the payload stay.
pub reset_transaction : Transaction → Transaction
reset_transaction t = record t { epoch = 0; rw_set = empty_rw_set; result = pending }

pub reset_rw_set : Transaction → Transaction
reset_rw_set t = record t { rw_set = empty_rw_set }

pub reset_transaction_payload : Transaction → Transaction
reset_transaction_payload t = record t { payload = empty_payload }

-- `invalidBit`: a null pointer, or an epoch and a flag that is true while the source is valid.
pub is_valid : Option (ℕ × Bool) → Transaction → Bool
is_valid none t = true
is_valid (some (since, good)) t =
    if not good then if leb since t.epoch then false else true else true
