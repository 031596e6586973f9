-- ===== src/Coordinator/Queue.antt =====
-- `TransactionQueueWrapper`, include/block_server/coordinator/aria_coordinator.h: a queue with a
-- slot for the transaction at its front. A call that waits on an empty queue has no result.
use neu_chain.Prelude.{◌≡◌, Bool, true, false, Option, none, some, List, [], ◌∷◌, ◌++◌}
use neu_chain.Transaction.{Transaction}

pub record TransactionQueue : Type 0 where
  pub waiting : List Transaction
  pub slot : Option Transaction

unfoldable pub front : TransactionQueue → Option (Transaction × TransactionQueue)
front q = elim q.slot [
  | some t ↦ some (t, q)
  | none ↦ elim q.waiting [ [] ↦ none | t ∷ ts ↦ some (t, record { waiting = ts; slot = some t }) ]
]

unfoldable pub pop : TransactionQueue → Option (Transaction × TransactionQueue)
pop q = elim q.slot [
  | some t ↦ some (t, record q { slot = none })
  | none ↦ elim q.waiting [ [] ↦ none | t ∷ ts ↦ some (t, record { waiting = ts; slot = none }) ]
]

-- A queue that is not empty has its first transaction moved to the slot.
unfoldable pub is_empty : TransactionQueue → Bool × TransactionQueue
is_empty q = elim q.slot [
  | some t ↦ (false, q)
  | none ↦ elim q.waiting [
    | [] ↦ (true, q)
    | t ∷ ts ↦ (false, record { waiting = ts; slot = some t })
  ]
]

abbrev pub push_bulk : List Transaction → TransactionQueue → TransactionQueue
push_bulk ts q = record q { waiting = q.waiting ++ ts }

-- What is in the queue, in order.
abbrev pub contents : TransactionQueue → List Transaction
contents q = elim q.slot [ none ↦ q.waiting | some t ↦ t ∷ q.waiting ]

-- The queue with its front in the slot.
abbrev pub held : Transaction → List Transaction → TransactionQueue
held t ts = record { waiting = ts; slot = some t }

pub front_lem :
    (q : TransactionQueue) (t : Transaction) (ts : List Transaction)
    → contents q ≡ t ∷ ts
    → front q ≡ some (t, held t ts)
unfolding front
front_lem q t ts h = by_slot q.waiting q.slot h
  where
    ap_cons :
        {x : Transaction} {xs : List Transaction}
        → x ∷ xs ≡ t ∷ ts
        → ◌≡◌ {A = Option (Transaction × TransactionQueue)}
            (some (x, held x xs))
            (some (t, held t ts))
    ap_cons e = cc

    by_slot :
        (w : List Transaction) (slot : Option Transaction)
        → contents (record { waiting = w; slot = slot }) ≡ t ∷ ts
        → front (record { waiting = w; slot = slot }) ≡ some (t, held t ts)
    by_slot [] none e = cc
    by_slot (x ∷ xs) none e = ap_cons e
    by_slot w (some x) e = ap_cons e
