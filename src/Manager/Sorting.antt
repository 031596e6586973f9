-- ===== src/Manager/Sorting.antt =====
-- Where the transactions of an epoch go.
use mathlib.Core.List.{append_assoc}
use neu_chain.Prelude.{ℕ, ◌≡◌, sym, Bool, true, false, not, ◌&&◌, List, [], ◌∷◌, ◌++◌, map, keep}
use neu_chain.Transaction.{
  Transaction, TransactionResult, commit, pending, abort, abort_no_retry, is_abort,
}
use neu_chain.Manager.{Manager, Sorted, retried, categorize_one}

module _ (reusing : Bool) (finished : ℕ) where
  -- Tried again, or to be recorded in the block.
  abbrev pub is_retried : Transaction → Bool
  is_retried t = is_abort t.result && reusing

  abbrev pub is_recorded : TransactionResult → Bool
  is_recorded commit = true
  is_recorded abort = not reusing
  is_recorded abort_no_retry = true
  is_recorded pending = false

-- One round puts the transaction where it belongs.
abbrev Puts : Bool → ℕ → Transaction → List Transaction → Sorted → Type 0
Puts reusing finished t ts s =
    (s.recorded ++ keep (λ u. is_recorded reusing finished u.result) (t ∷ ts)
      ≡ (categorize_one reusing finished t s).recorded
        ++ keep (λ u. is_recorded reusing finished u.result) ts)
    × (s.reused ++ map (retried finished) (keep (is_retried reusing finished) (t ∷ ts))
        ≡ (categorize_one reusing finished t s).reused
          ++ map (retried finished) (keep (is_retried reusing finished) ts))

pushed :
    (xs : List Transaction) (x : Transaction) (ys : List Transaction)
    → xs ++ x ∷ ys ≡ (xs ++ x ∷ []) ++ ys
pushed xs x ys = sym (append_assoc xs (x ∷ []) ys)
