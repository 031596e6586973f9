-- ===== src/Tests/Manager.antt =====
-- The theorems on the end of an epoch at concrete transactions.
use neu_chain.Prelude.{ℕ, true, none, List, [], ◌∷◌, ◌==◌, if◌then◌else◌}
use neu_chain.Transaction.{Transaction, TransactionResult, commit, abort, abort_no_retry}
use neu_chain.Manager.{Manager}
use neu_chain.Tests.Data.{copy}

abbrev with_result : ℕ → TransactionResult → Transaction
with_result tid r = record (copy tid "a" "b") { result = r }

abbrev finished : List Transaction
finished = with_result 1 commit ∷ with_result 2 abort ∷ with_result 3 abort_no_retry ∷ []

abbrev manager : Manager
manager = record {
  categorize_transaction = true;
  reusing_abort_transaction = true;
  processing_epoch = 4;
  cleaned_epoch = 1;
  epoch_tx_buffer = λ k. if k == 4 then finished else [];
  reuse_tx_wrapper = none;
  pending_block = [];
  cleared = 1 ∷ [];
}

-- The epochs 2 and 3 are cleared.
