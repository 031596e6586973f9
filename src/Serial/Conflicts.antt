-- ===== src/Serial/Conflicts.antt =====
-- The transactions that an epoch commits, and what the analysis of their dependencies rules out
-- between any two of them.
use mathlib.Core.List.{Perm}
use neu_chain.Prelude.{
  ℕ, ◌<◌, ◌≡◌, refl, subst, Bool, true, false, List, Key, keep, All, All-keep, All-keep_self,
  All-and, All-map_lem, All-of_In, Pairwise, Pairwise-keep, Pairwise-and, Pairwise-map_lem, In,
  arith,
}
use neu_chain.RwSet.{read_keys, write_keys}
use neu_chain.ReserveTable.{new_reserve_table, TransactionDependency, dependency_analysis}
use neu_chain.ReserveTable.Min.{Batch, HasIds, reserve_all}
use neu_chain.ReserveTable.Exact.{dependency_analysis-exact}
use neu_chain.Decision.{Verdict, commits, overwrites, crosses, decide, decide-commits}
use neu_chain.Serial.{View, Entry, apply_all, ReadsFrom, Replays}
use neu_chain.Serial.Order.{
  Ordered, Distinct, serial_order, serial_order-Pairwise, serial_order-Distinct, serial_order-perm,
  All-serial_order, apply_all-serial_order,
}
use neu_chain.Serial.Replay.{Unread, Unshared, Replays-of_Unread}

abbrev pub lets_commit : Verdict → Bool
lets_commit commits = true
lets_commit _ = false

module _ (epoch : ℕ) (b : Batch) where
  -- What the analysis says of an entry, over the table in which the whole batch is reserved.
  unfoldable pub dependency : Entry → TransactionDependency
  dependency e = dependency_analysis e.1 e.0 (reserve_all b (new_reserve_table epoch))

  abbrev pub has_raw : Entry → Bool
  has_raw e = (dependency e).raw

  -- The entries of the batch that `commitList` commits.
  unfoldable pub committed : List Entry
  committed = keep (λ e. lets_commit (decide (dependency e))) b

  -- An entry of the batch that is committed.
  abbrev pub IsCommitted : Entry → Type 0
  IsCommitted e = In e b × (decide (dependency e) ≡ commits)

module _ (epoch : ℕ) (b : Batch) (ids : HasIds b) where
  -- An entry with a smaller id that writes a key of this one is seen as its dependency.
  raw_of :
      (x y : Entry) (k : Key)
      → In x b
      → In k (write_keys x.1)
      → In k (read_keys y.1)
      → x.0 < y.0
      → (dependency epoch b y).raw ≡ true
  unfolding dependency
  raw_of x y k i w r lt = (dependency_analysis-exact b epoch y.0 y.1 ids).2.1 (k, r, (x, i, lt, w))

  war_of :
      (x y : Entry) (k : Key)
      → In x b
      → In k (read_keys x.1)
      → In k (write_keys y.1)
      → x.0 < y.0
      → (dependency epoch b y).war ≡ true
  unfolding dependency
  war_of x y k i r w lt = (dependency_analysis-exact b epoch y.0 y.1 ids).1.1 (k, w, (x, i, lt, r))

  waw_of :
      (x y : Entry) (k : Key)
      → In x b
      → In k (write_keys x.1)
      → In k (write_keys y.1)
      → x.0 < y.0
      → (dependency epoch b y).waw ≡ true
  unfolding dependency
  waw_of x y k i w v lt = (dependency_analysis-exact b epoch y.0 y.1 ids).0.1 (k, v, (x, i, lt, w))

  -- Of two committed entries the later in the serial order reads nothing that the other writes.
  Unread-of_Ordered :
      (x y : Entry)
      → IsCommitted epoch b x
      → IsCommitted epoch b y
      → Ordered (has_raw epoch b) x y
      → Distinct x y
      → Unread x y
  Unread-of_Ordered x y cx cy o ne k w r = ground (
    arith,
    decide-commits (dependency epoch b x) cx.1,
    raw_of x y k cx.0 w r,
    war_of y x k cy.0 r w,
  )

  -- No two committed entries write a key in common.
  Unshared-of_committed :
      (x y : Entry) → IsCommitted epoch b x → IsCommitted epoch b y → Distinct x y → Unshared x y
  Unshared-of_committed x y cx cy ne k w v = ground (
    arith,
    decide-commits (dependency epoch b x) cx.1,
    decide-commits (dependency epoch b y) cy.1,
    waw_of x y k cx.0 w v,
    waw_of y x k cy.0 v w,
  )

  committed-IsCommitted : All (IsCommitted epoch b) (committed epoch b)
  unfolding committed
  committed-IsCommitted =
      All-and _ _ (committed epoch b) (All-keep _ (λ e. In e b) b (All-of_In _ b (λ e i. i)))
        (All-map_lem _ _ (committed epoch b) (λ e h. of_commit _ h) (All-keep_self _ b))
    where
      of_commit : (d : Verdict) → lets_commit d ≡ true → d ≡ commits
      of_commit commits h = refl
      of_commit overwrites h = cc
      of_commit crosses h = cc

  -- The transactions that an epoch commits are serializable. Take a batch of transactions that
  -- have been reserved in the table of the epoch, with different ids other than 0, each with reads
  -- from one view of the stored values. Run one after another in the serial order, the committed
  -- ones read the values that they have recorded, and leave the view that the commits leave.
  pub committed-Replays :
      (v : View)
      → Pairwise Distinct b
      → All (λ e. ReadsFrom v e.1) b
      → let order = serial_order (has_raw epoch b) (committed epoch b) in
        Perm order (committed epoch b) × Replays order v (apply_all (committed epoch b) v)
  unfolding committed
  committed-Replays v distinct reads = (
    serial_order-perm raw done,
    subst (Replays (serial_order raw done) v) (apply_all-serial_order raw done v apart) (
        Replays-of_Unread (serial_order raw done) v unread
          (All-serial_order raw _ done (All-keep _ _ b reads))),
  )
    where
      raw : Entry → Bool
      raw = has_raw epoch b

      done : List Entry
      done = committed epoch b

      all : All (IsCommitted epoch b) done
      all = committed-IsCommitted

      different : Pairwise Distinct done
      different = Pairwise-keep _ Distinct b distinct

      apart : Pairwise Unshared done
      apart = Pairwise-map_lem _ _ _ done Unshared-of_committed all different

      unread : Pairwise Unread (serial_order raw done)
      unread =
          Pairwise-map_lem (IsCommitted epoch b) (λ x y. Ordered raw x y × Distinct x y) Unread
            (serial_order raw done) (λ x y p q r. Unread-of_Ordered x y p q r.0 r.1)
            (All-serial_order raw _ done all)
            (Pairwise-and _ _ (serial_order raw done) (serial_order-Pairwise raw done different)
              (serial_order-Distinct raw done different))
