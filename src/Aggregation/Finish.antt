-- ===== src/Aggregation/Finish.antt =====
-- What `createWorkload` of a cluster's server makes of the transactions that its loop has taken
-- (src/block_server/coordinator/aggregation_coordinator.cpp).
use neu_chain.Prelude.{
  ℕ, zero, suc, ◌≤◌, ◌≡◌, ◌≢◌, refl, ap, ◌⊎◌, inl, inr, true, false, Option, none, some, List, [],
  ◌∷◌, ◌++◌, length, arith,
}
use neu_chain.Transaction.{Transaction}
use neu_chain.Coordinator.{Limits}
use neu_chain.Aggregation.Coordinator.{
  ClusterWorkload, Sharing, first_some, create_aggregation_workload, finish_cluster,
}

-- A workload of the aggregation.
abbrev pub aggregated : List Transaction → Option ClusterWorkload
aggregated [] = none
aggregated (t ∷ ts) =
    some (record { epoch = t.epoch; transaction_list = t ∷ ts; aggregation_workload = true })

module _ (l : Limits) where
  -- What follows the loop, with the own transactions that it has found and the queue that it leaves:
  -- a workload of the own ones, or else one of the first transactions of the queue, as many as a
  -- workload may have.
  abbrev pub Finishes :
      ℕ → List Transaction → List Transaction → Option ClusterWorkload × Sharing → Type 0
  Finishes epoch mine queue (w, sh) =
      ((mine ≢ [])
        × (w
            ≡ some
                (record { epoch = epoch; transaction_list = mine; aggregation_workload = false }))
        × (sh.aggregation_queue ≡ queue))
      ⊎ ((mine ≡ [])
          × ((a : List Transaction) × (a ++ sh.aggregation_queue ≡ queue)
              × (length a ≤ l.max_tx)
              × ((sh.aggregation_queue ≡ []) ⊎ (length a ≡ l.max_tx))
              × (w ≡ aggregated a)))

  first_some_lem :
      (n : ℕ) (ts : List Transaction)
      → ((first_some n ts).0 ++ (first_some n ts).1 ≡ ts)
        × (length (first_some n ts).0 ≤ n)
        × (((first_some n ts).1 ≡ []) ⊎ (length (first_some n ts).0 ≡ n))
  unfolding first_some
  first_some_lem zero ts = (refl, omega arith, inr refl)
  first_some_lem (suc n) [] = (refl, omega arith, inl refl)
  first_some_lem (suc n) (t ∷ ts) =
      let (whole, short, full) = first_some_lem n ts in
      (
        ap (λ x. t ∷ x) whole,
        omega arith,
        elim full [ inl none_left ↦ inl none_left | inr many ↦ inr (ap suc many) ],
      )

  pub finish_cluster-Finishes :
      (epoch : ℕ) (mine : List Transaction) (sh : Sharing)
      → Finishes epoch mine sh.aggregation_queue (finish_cluster l epoch (mine, sh))
  unfolding finish_cluster create_aggregation_workload
  finish_cluster-Finishes epoch (t ∷ ts) sh = inl ((λ h. cc), refl, refl)
  finish_cluster-Finishes epoch [] sh =
      let (whole, short, full) = first_some_lem l.max_tx sh.aggregation_queue in
      inr (
        refl,
        (
          (first_some l.max_tx sh.aggregation_queue).0,
          whole,
          short,
          full,
          by_list (first_some l.max_tx sh.aggregation_queue).0,
        ),
      )
    where
      by_list :
          (a : List Transaction)
          → elim a [
            | [] ↦ none
            | t ∷ ts ↦
                some (record {
                  epoch = t.epoch;
                  transaction_list = t ∷ ts;
                  aggregation_workload = true;
                })
          ]
            ≡ aggregated a
      by_list [] = refl
      by_list (t ∷ ts) = refl
