-- ===== src/Manager.antt =====
-- The transaction manager at the end of an epoch,
-- src/block_server/transaction/impl/transaction_manager_impl.cpp: which transactions go into the
-- block, and which are tried again in the next epoch. The queues of `epochTxBuffer` are lists: what
-- `run` has put into the queue of the next epoch stands in front of what `categorizeEpoch` adds. The
-- queues of the code keep the order of what one thread puts in, not that between the two threads.
pub mod Sorting
pub mod Clearing
use neu_chain.Prelude.{
  ℕ, zero, suc, ◌+◌, ◌-◌, Bool, true, false, not, ◌||◌, Option, none, some, List, [], ◌∷◌, ◌++◌,
  ltb, ◌==◌, if◌then◌else◌,
}
use neu_chain.Transaction.{
  Transaction, TransactionResult, commit, pending, abort, abort_no_retry, is_abort, is_commit,
  is_abort_no_retry, reset_transaction,
}

pub record Manager : Type 0 where
  pub categorize_transaction : Bool
  pub reusing_abort_transaction : Bool
  pub processing_epoch : ℕ
  pub cleaned_epoch : ℕ
  pub epoch_tx_buffer : ℕ → List Transaction
  pub reuse_tx_wrapper : Option (List Transaction)
  -- What the block generator has got for the next block, and what it has been told to clear.
  pub pending_block : List Transaction
  pub cleared : List ℕ

abbrev pub set_queue : ℕ → List Transaction → (ℕ → List Transaction) → ℕ → List Transaction
set_queue e ts f k = if e == k then ts else f k

-- An aborted transaction, to be tried in the next epoch.
abbrev pub retried : ℕ → Transaction → Transaction
retried finished t = record (reset_transaction t) { epoch = finished + 1 }

-- What the loop of `categorizeEpoch` has sorted so far.
pub record Sorted : Type 0 where
  pub recorded : List Transaction
  pub reused : List Transaction
  pub commits : ℕ
  pub aborts : ℕ

unfoldable pub categorize_one : Bool → ℕ → Transaction → Sorted → Sorted
categorize_one reusing finished t s =
    if is_abort t.result
    then (if not reusing
        then record s { recorded = s.recorded ++ t ∷ []; aborts = s.aborts + 1 }
        else record s { reused = s.reused ++ retried finished t ∷ []; aborts = s.aborts + 1 })
    else if is_commit t.result
    then record s { recorded = s.recorded ++ t ∷ []; commits = s.commits + 1 }
    else if is_abort_no_retry t.result
    then record s { recorded = s.recorded ++ t ∷ []; aborts = s.aborts + 1 }
    else s

unfoldable pub categorize_all : Bool → ℕ → List Transaction → Sorted → Sorted
unfolding categorize_one
categorize_all reusing finished [] s = s
categorize_all reusing finished (t ∷ ts) s =
    categorize_all reusing finished ts (categorize_one reusing finished t s)

-- A transaction that is tried again is also in the queue of the next epoch.
abbrev pub unsorted : List Transaction → Sorted
unsorted ts = record { recorded = ts; reused = []; commits = 0; aborts = 0 }

unfoldable pub categorize_epoch : ℕ → Manager → Manager
unfolding categorize_all
categorize_epoch finished m =
    let s =
      categorize_all m.reusing_abort_transaction finished (m.epoch_tx_buffer finished)
        (unsorted m.pending_block) in
    record m {
      epoch_tx_buffer =
          set_queue (finished + 1) (m.epoch_tx_buffer (finished + 1) ++ s.reused)
            (set_queue finished [] m.epoch_tx_buffer);
      reuse_tx_wrapper = some s.reused;
      pending_block = s.recorded;
    }

unfoldable pub non_categorize_epoch : ℕ → Manager → Manager
non_categorize_epoch finished m = record m {
  epoch_tx_buffer = set_queue finished [] m.epoch_tx_buffer;
  pending_block = m.pending_block ++ m.epoch_tx_buffer finished;
}

-- `while (cleanedEpoch < saved) clearTransactionForEpoch(++cleanedEpoch)`.
unfoldable pub clear_epochs : ℕ → ℕ → Manager → Manager
clear_epochs zero saved m = m
clear_epochs (suc fuel) saved m =
    let c = m.cleaned_epoch + 1 in
    let rest =
      clear_epochs fuel saved (record m { cleaned_epoch = c; cleared = m.cleared ++ c ∷ [] }) in
    if ltb m.cleaned_epoch saved then rest else m

unfoldable pub sort_epoch : ℕ → Manager → Manager
unfolding categorize_epoch non_categorize_epoch
sort_epoch finished m =
    if m.categorize_transaction || m.reusing_abort_transaction
    then categorize_epoch finished m
    else non_categorize_epoch finished m

-- The block that `generateBlock` is given, and the manager after the call. `saved` is the last
-- epoch that the block generator has stored by then.
unfoldable pub epoch_finished_callback : ℕ → ℕ → Manager → List Transaction × Manager
unfolding sort_epoch clear_epochs
epoch_finished_callback finished saved m =
    let sorted = sort_epoch finished m in
    let m' = clear_epochs (saved - m.cleaned_epoch) saved (record sorted { pending_block = [] }) in
    (
      sorted.pending_block,
      record m' {
        epoch_tx_buffer = set_queue finished [] m'.epoch_tx_buffer;
        processing_epoch = finished + 1;
      },
    )
