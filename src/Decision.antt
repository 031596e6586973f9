-- ===== src/Decision.antt =====
-- The branch that `TransactionExecutor::commitList` takes for a transaction without an internal
-- error, by its dependencies (src/block_server/worker/transaction_executor.cpp, lines 27-40).
use neu_chain.Prelude.{◌≡◌, ◌⊎◌, false, not, ◌||◌, if◌then◌else◌, arith}
use neu_chain.ReserveTable.{TransactionDependency}

pub data Verdict : Type 0 where
  overwrites commits crosses : Verdict

unfoldable pub decide : TransactionDependency → Verdict
decide d = if d.waw then overwrites else if not d.war || not d.raw then commits else crosses

-- A transaction commits with no waw, and not with both of war and raw.
pub decide-commits :
    (d : TransactionDependency)
    → decide d ≡ commits
    → (d.waw ≡ false) × ((d.war ≡ false) ⊎ (d.raw ≡ false))
unfolding decide
decide-commits d h = ground arith
