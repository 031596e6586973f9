-- ===== src/Aggregation/Parts.antt =====
-- Every transaction of an epoch is either the server's own or waits for another's result.
use mathlib.Core.List.{append_assoc, append-nil}
use neu_chain.Prelude.{
  ℕ, zero, suc, ◌%◌, ◌==◌, ◌≤◌, ◌<◌, ◌≡◌, refl, sym, ap, ◌∙◌, subst, inl, inr, false, ◌&&◌, Option,
  some, List, [], ◌∷◌, ◌++◌, leb, ltb, length, if◌then◌else◌, Bool-cases, if_false, length-append,
  arith,
}
use neu_chain.Transaction.{Transaction}
use neu_chain.Coordinator.{Limits, goes_on}
use neu_chain.Coordinator.Queue.{TransactionQueue, front, pop, is_empty, contents, held, front_lem}
use neu_chain.Aggregation.Broadcaster.{
  Broadcaster, is_local_transaction, add_broadcast_transaction, add_listen_transaction,
}
use neu_chain.Aggregation.Finish.{Finishes, finish_cluster-Finishes}
use neu_chain.Aggregation.Coordinator.{
  ClusterWorkload, Sharing, take_transaction, collect_cluster, finish_cluster,
  create_cluster_workload,
}

-- The transactions of a list that are the server's own, and the others.
abbrev pub own : Broadcaster → List Transaction → List Transaction
own b [] = []
own b (t ∷ ts) = if is_local_transaction t.tid b then t ∷ own b ts else own b ts

abbrev pub others : Broadcaster → List Transaction → List Transaction
others b [] = []
others b (t ∷ ts) = if is_local_transaction t.tid b then others b ts else t ∷ others b ts

unfoldable take_all : List Transaction → List Transaction × Sharing → List Transaction × Sharing
take_all [] acc = acc
take_all (t ∷ ts) acc = take_all ts (take_transaction t acc)

abbrev SameShare : Broadcaster → Broadcaster → Type 0
SameShare a b = (a.local_id ≡ b.local_id) × (a.total_server_count ≡ b.total_server_count)

own-same :
    (a b : Broadcaster) (ts : List Transaction)
    → SameShare a b
    → (own a ts ≡ own b ts) × (others a ts ≡ others b ts)
own-same a b [] h = (refl, refl)
own-same a b (t ∷ ts) h =
    let (p, q) = own-same a b ts h in
    let e : is_local_transaction t.tid a ≡ is_local_transaction t.tid b =
      λ i. t.tid % h.1 i == h.0 i in
    (λ i. if e i then t ∷ p i else p i, λ i. if e i then q i else t ∷ q i)

take_all_lem :
    (ts list : List Transaction) (sh : Sharing)
    → ((take_all ts (list, sh)).0 ≡ list ++ own sh.broadcaster ts)
      × ((take_all ts (list, sh)).1.aggregation_queue
          ≡ sh.aggregation_queue ++ others sh.broadcaster ts)
unfolding take_all take_transaction
take_all_lem [] list sh = (sym (append-nil list), sym (append-nil sh.aggregation_queue))
take_all_lem (t ∷ ts) list sh = elim (Bool-cases (is_local_transaction t.tid sh.broadcaster)) [
  | inl e ↦
      let next = add_broadcast_transaction t sh.broadcaster in
      let (p, q) = take_all_lem ts (list ++ t ∷ []) (record sh { broadcaster = next }) in
      let (x, y) = own-same next sh.broadcaster ts (refl, refl) in
      (
        rw (take_all, take_transaction, e)
            (p ∙ append_assoc list (t ∷ []) (own next ts) ∙ ap (λ l. list ++ t ∷ l) x),
        rw (take_all, take_transaction, e) (q ∙ ap (λ l. sh.aggregation_queue ++ l) y),
      )
  | inr e ↦
      let next = add_listen_transaction t sh.broadcaster in
      let (p, q) =
        take_all_lem ts list
          (record { broadcaster = next; aggregation_queue = sh.aggregation_queue ++ t ∷ [] }) in
      let (x, y) = own-same next sh.broadcaster ts (refl, refl) in
      (
        rw (take_all, take_transaction, e) (p ∙ ap (λ l. list ++ l) x),
        rw (take_all, take_transaction, e)
            (q
              ∙ append_assoc sh.aggregation_queue (t ∷ []) (others next ts)
              ∙ ap (λ l. sh.aggregation_queue ++ t ∷ l) y),
      )
]

module _ (l : Limits) where
  abbrev pub start : List Transaction → Transaction → List Transaction → TransactionQueue
  start [] y zs = held y zs
  start (x ∷ xs) y zs = held x (xs ++ y ∷ zs)

  collect_cluster-round :
      (fuel : ℕ) (acc : List Transaction × Sharing) (t n : Transaction) (ts : List Transaction)
      → let acc' = take_transaction t acc in
        collect_cluster l (suc fuel) acc t (held t (n ∷ ts)) ≡ (
          if leb n.epoch l.current_epoch && ltb (length acc'.0) l.max_tx
          then collect_cluster l fuel acc' n (held n ts)
          else some (acc', held n ts))
  unfolding collect_cluster goes_on pop front is_empty
  collect_cluster-round fuel acc t n ts =
      elim (Bool-cases (leb (length (take_transaction t acc).0) l.min_tx)) [
        | inl e ↦ rw e refl
        | inr e ↦ rw e refl
      ]

  late_lem : (e c : ℕ) → c < e → leb e c ≡ false
  late_lem e c h = ground arith

  collect_cluster-all :
      (fuel : ℕ) (acc : List Transaction × Sharing) (t : Transaction) (xs : List Transaction)
      (y : Transaction) (zs : List Transaction)
      → length xs < fuel
      → l.current_epoch < y.epoch
      → (p : List Transaction) × (b : List Transaction) × (collect_cluster l fuel acc t
            (held t (xs ++ y ∷ zs))
          ≡ some (take_all (t ∷ p) acc, start b y zs))
        × (p ++ b ≡ xs)
  unfolding take_all
  collect_cluster-all zero acc t xs y zs enough late = absurd (omega arith)
  collect_cluster-all (suc fuel) acc t [] y zs enough late = (
    [],
    [],
    collect_cluster-round fuel acc t y zs ∙ rw (late_lem y.epoch l.current_epoch late) refl,
    refl,
  )
  collect_cluster-all (suc fuel) acc t (x ∷ xs) y zs enough late =
      let acc' = take_transaction t acc in
      elim (Bool-cases (leb x.epoch l.current_epoch && ltb (length acc'.0) l.max_tx)) [
        | inr e ↦ ([], x ∷ xs, collect_cluster-round fuel acc t x (xs ++ y ∷ zs) ∙ rw e refl, refl)
        | inl e ↦
            let (p, b, run, kept) = collect_cluster-all fuel acc' x xs y zs (omega arith) late in
            (
              x ∷ p,
              b,
              collect_cluster-round fuel acc t x (xs ++ y ∷ zs) ∙ rw e run,
              ap (λ k. x ∷ k) kept,
            )
      ]

  -- A server of a cluster parts the transactions of an epoch. If the queue holds some of the epoch,
  -- and then one of a later epoch, createWorkload comes to an end, and has taken some of the first
  -- ones, at least one, and left the rest. All of those that are not its own are put at the end of the
  -- queue of the aggregation, in their order. Its own, in their order, are the workload, with the
  -- epoch of the first one, if there are any, and the queue stays so. Otherwise the workload is made
  -- of the first transactions of the queue, as many as a workload may have or all of them, with the
  -- epoch of the first one, which are taken off; there is none where these are none.
  pub create_cluster_workload-parts :
      (sh : Sharing) (q : TransactionQueue) (t : Transaction) (xs : List Transaction)
      (y : Transaction) (zs : List Transaction)
      → contents q ≡ t ∷ xs ++ y ∷ zs
      → t.epoch ≤ l.current_epoch
      → l.current_epoch < y.epoch
      → (p : List Transaction) × (b : List Transaction) × (out : Option ClusterWorkload × Sharing)
        × (create_cluster_workload l sh q ≡ some (out, start b y zs))
        × (p ++ b ≡ xs)
        × Finishes l t.epoch
            (own sh.broadcaster (t ∷ p))
            (sh.aggregation_queue ++ others sh.broadcaster (t ∷ p))
            out
  unfolding create_cluster_workload
  create_cluster_workload-parts sh q t xs y zs at current late =
      let whole = xs ++ y ∷ zs in
      let (p, b, run, kept) =
        collect_cluster-all (length (t ∷ whole)) ([], sh) t xs y zs (shorter xs (y ∷ zs)) late in
      let (mine, theirs) = take_all_lem (t ∷ p) [] sh in
      let acc = take_all (t ∷ p) ([], sh) in
      (
        p,
        b,
        finish_cluster l t.epoch acc,
        rw (create_cluster_workload, front_lem q t whole at)
            (if_false (ltb l.current_epoch t.epoch) _ _ (not_late t.epoch l.current_epoch current)
              ∙ rw run refl),
        kept,
        subst
            (λ m.
              Finishes l t.epoch m (sh.aggregation_queue ++ others sh.broadcaster (t ∷ p))
                (finish_cluster l t.epoch acc))
            mine
            (subst (λ x. Finishes l t.epoch acc.0 x (finish_cluster l t.epoch acc)) theirs
              (finish_cluster-Finishes l t.epoch acc.0 acc.1)),
      )
    where
      not_late : (e c : ℕ) → e ≤ c → ltb c e ≡ false
      not_late e c h = ground arith

      shorter : (a b : List Transaction) → length a < length (t ∷ (a ++ b))
      shorter a b = omega (arith, length-append a b)
