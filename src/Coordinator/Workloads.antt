-- ===== src/Coordinator/Workloads.antt =====
-- How the transactions of an epoch are cut into workloads.
use mathlib.Core.List.{append_assoc}
use neu_chain.Prelude.{
  ℕ, zero, suc, ◌≤◌, ◌<◌, ◌≡◌, refl, ap, ◌∙◌, ◌⊎◌, inl, inr, true, false, ◌&&◌, none, some, List,
  [], ◌∷◌, ◌++◌, leb, ltb, length, length-append, if◌then◌else◌, All, Bool-cases, arith,
}
use neu_chain.Transaction.{Transaction}
use neu_chain.Coordinator.Queue.{TransactionQueue, front, pop, is_empty, contents, held, front_lem}
use neu_chain.Coordinator.{Workload, Limits, goes_on, collect, create_workload, create_workloads}

module _ (l : Limits) where
  -- The queue that begins with the given transactions of the epoch, then one of a later epoch.
  abbrev start : List Transaction → Transaction → List Transaction → TransactionQueue
  start [] y zs = held y zs
  start (x ∷ xs) y zs = held x (xs ++ y ∷ zs)

  -- One round: since `front` waits for the next transaction, the queue is never empty at the test,
  -- so that the lower limit does not matter.
  collect-round :
      (fuel : ℕ) (taken : List Transaction) (t n : Transaction) (ts : List Transaction)
      → let list = taken ++ t ∷ [] in
        collect l (suc fuel) taken t (held t (n ∷ ts)) ≡ (
          if leb n.epoch l.current_epoch && ltb (length list) l.max_tx
          then collect l fuel list n (held n ts)
          else some (list, held n ts))
  unfolding collect goes_on pop front is_empty
  collect-round fuel taken t n ts = elim (Bool-cases (leb (length (taken ++ t ∷ [])) l.min_tx)) [
    | inl e ↦ rw e refl
    | inr e ↦ rw e refl
  ]

  -- The transactions of one workload: the first ones of those left, at least one, and not more than
  -- the upper limit.
  record Cuts (taken : List Transaction) (t : Transaction) (xs list b : List Transaction)
      : Type 0 where
    pub kept : list ++ b ≡ taken ++ t ∷ xs
    pub grown : length taken < length list
    pub bounded : (length list ≤ l.max_tx) ⊎ (length list ≤ suc (length taken))

  abbrev pub IsCurrent : Transaction → Type 0
  IsCurrent t = t.epoch ≤ l.current_epoch

  length-push : (ts : List Transaction) (t : Transaction) → length (ts ++ t ∷ []) ≡ suc (length ts)
  length-push ts t = omega (arith, length-append ts (t ∷ []))

  collect-Cuts :
      (fuel : ℕ) (taken : List Transaction) (t : Transaction) (xs : List Transaction)
      (y : Transaction) (zs : List Transaction)
      → length xs < fuel
      → All IsCurrent xs
      → l.current_epoch < y.epoch
      → (list : List Transaction) × (b : List Transaction) × (collect l fuel taken t
            (held t (xs ++ y ∷ zs))
          ≡ some (list, start b y zs))
        × All IsCurrent b
        × Cuts taken t xs list b
  collect-Cuts zero taken t xs y zs enough cs late = absurd (omega arith)
  collect-Cuts (suc fuel) taken t [] y zs enough cs late = (
    taken ++ t ∷ [],
    [],
    collect-round fuel taken t y zs ∙ rw (late_lem y.epoch l.current_epoch late) refl,
    tt,
    record {
      kept = append_assoc taken (t ∷ []) [];
      grown = omega (arith, length-push taken t);
      bounded = inr (omega (arith, length-push taken t));
    },
  )
    where
      late_lem : (e c : ℕ) → c < e → leb e c ≡ false
      late_lem e c h = ground arith
  collect-Cuts (suc fuel) taken t (x ∷ xs) y zs enough cs late =
      elim (Bool-cases (leb x.epoch l.current_epoch && ltb (length (taken ++ t ∷ [])) l.max_tx)) [
        | inr e ↦ (
          taken ++ t ∷ [],
          x ∷ xs,
          collect-round fuel taken t x (xs ++ y ∷ zs) ∙ rw e refl,
          cs,
          record {
            kept = append_assoc taken (t ∷ []) (x ∷ xs);
            grown = omega (arith, length-push taken t);
            bounded = inr (omega (arith, length-push taken t));
          },
        )
        | inl e ↦
            let (list, b, run, current, cut) =
              collect-Cuts fuel (taken ++ t ∷ []) x xs y zs (omega arith) cs.1 late in
            (
              list,
              b,
              collect-round fuel taken t x (xs ++ y ∷ zs) ∙ rw e run,
              current,
              record {
                kept = cut.kept ∙ append_assoc taken (t ∷ []) (x ∷ xs);
                grown = omega (arith, length-push taken t, cut.grown);
                bounded = ground (arith, length-push taken t, cut.bounded);
              },
            )
      ]

  abbrev pub all_transactions : List Workload → List Transaction
  all_transactions [] = []
  all_transactions (w ∷ ws) = w.transaction_list ++ all_transactions ws

  -- At least one transaction, and not more than the limit, where that is not 0.
  abbrev pub HasSize : Workload → Type 0
  HasSize w =
      (1 ≤ length w.transaction_list)
      × ((length w.transaction_list ≤ l.max_tx) ⊎ (length w.transaction_list ≤ 1))

  pub record Assigns (xs : List Transaction) (y : Transaction) (zs : List Transaction)
      (ws : List Workload) (q : TransactionQueue) : Type 0 where
    pub everything : all_transactions ws ≡ xs
    pub sizes : All HasSize ws
    pub epochs : All (λ w. w.epoch ≤ l.current_epoch) ws
    pub left : contents q ≡ y ∷ zs

  abbrev AssignsAll :
      ℕ → List Transaction → Transaction → List Transaction → TransactionQueue → Type 0
  AssignsAll fuel xs y zs q =
      (ws : List Workload) × (q' : TransactionQueue) × (create_workloads l fuel q ≡ some (ws, q'))
      × Assigns xs y zs ws q'

  create_workload-late :
      (y : Transaction) (zs : List Transaction)
      → l.current_epoch < y.epoch
      → create_workload l (held y zs) ≡ some (none, held y zs)
  unfolding create_workload front
  create_workload-late y zs late = rw (late_lem y.epoch l.current_epoch late, create_workload) refl
    where
      late_lem : (e c : ℕ) → c < e → ltb c e ≡ true
      late_lem e c h = ground arith

  create_workload-current :
      (t : Transaction) (ts list : List Transaction) (q : TransactionQueue)
      → IsCurrent t
      → collect l (suc (length ts)) [] t (held t ts) ≡ some (list, q)
      → create_workload l (held t ts)
        ≡ some (some (record { epoch = t.epoch; transaction_list = list }), q)
  unfolding create_workload front
  create_workload-current t ts list q c run =
      rw (current_lem t.epoch l.current_epoch c) (rw run refl)
    where
      current_lem : (e c : ℕ) → e ≤ c → ltb c e ≡ false
      current_lem e c h = ground arith

  create_workloads-start :
      (fuel : ℕ) (xs : List Transaction) (y : Transaction) (zs : List Transaction)
      → length xs < fuel
      → All IsCurrent xs
      → l.current_epoch < y.epoch
      → AssignsAll fuel xs y zs (start xs y zs)
  unfolding create_workloads
  create_workloads-start zero xs y zs enough cs late = absurd (omega arith)
  create_workloads-start (suc fuel) [] y zs enough cs late = (
    [],
    held y zs,
    rw (create_workload-late y zs late, create_workloads) refl,
    record { everything = refl; sizes = tt; epochs = tt; left = refl },
  )
  create_workloads-start (suc fuel) (x ∷ xs) y zs enough cs late =
      let (list, b, run, current, cut) =
        collect-Cuts (suc (length (xs ++ y ∷ zs))) [] x xs y zs
          (omega (arith, length-append xs (y ∷ zs))) cs.1 late in
      let (ws, q, rest, assigned) =
        create_workloads-start fuel b y zs (shorter list b xs cut.grown (ap length cut.kept) enough)
          current late in
      (
        record { epoch = x.epoch; transaction_list = list } ∷ ws,
        q,
        rw (create_workload-current x (xs ++ y ∷ zs) list _ cs.0 run, create_workloads)
            (rw rest refl),
        record {
          everything = ap (λ r. list ++ r) assigned.everything ∙ cut.kept;
          sizes = ((cut.grown, cut.bounded), assigned.sizes);
          epochs = (cs.0, assigned.epochs);
          left = assigned.left;
        },
      )
    where
      shorter :
          (list b ys : List Transaction)
          → 0 < length list
          → length (list ++ b) ≡ suc (length ys)
          → suc (length ys) < suc fuel
          → length b < fuel
      shorter list b ys h e f = omega (arith, length-append list b)

  create_workloads-front :
      (fuel : ℕ) (q : TransactionQueue) (t : Transaction) (ts : List Transaction)
      → contents q ≡ t ∷ ts
      → create_workloads l fuel q ≡ create_workloads l fuel (held t ts)
  unfolding create_workloads create_workload front
  create_workloads-front zero q t ts e = refl
  create_workloads-front (suc fuel) q t ts e =
      rw (front_lem q t ts e, create_workloads, create_workload) refl

  -- The phase that assigns an epoch cuts its transactions into workloads and loses none. Take a
  -- queue that holds transactions of epochs up to the current one, and then one of a later epoch.
  -- The workloads together are exactly those transactions, in their order; none is empty, and none
  -- is larger than the upper limit (or than 1, if the limit is 0); the queue is left with the
  -- transaction of the later epoch, and what follows it.
  pub create_workloads-Assigns :
      (xs : List Transaction) (y : Transaction) (zs : List Transaction) (q : TransactionQueue)
      → contents q ≡ xs ++ y ∷ zs
      → All IsCurrent xs
      → l.current_epoch < y.epoch
      → (ws : List Workload) × (q' : TransactionQueue) × (create_workloads l (suc (length xs)) q
          ≡ some (ws, q'))
        × Assigns xs y zs ws q'
  create_workloads-Assigns [] y zs q e cs late =
      let (ws, q', run, a) = create_workloads-start 1 [] y zs (omega arith) cs late in
      (ws, q', create_workloads-front 1 q y zs e ∙ run, a)
  create_workloads-Assigns (x ∷ xs) y zs q e cs late =
      let fuel = suc (suc (length xs)) in
      let (ws, q', run, a) = create_workloads-start fuel (x ∷ xs) y zs (omega arith) cs late in
      (ws, q', create_workloads-front fuel q x (xs ++ y ∷ zs) e ∙ run, a)
