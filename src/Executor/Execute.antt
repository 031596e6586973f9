-- ===== src/Executor/Execute.antt =====
-- What the execution of a list of transactions leaves: the table of the epoch, the buffered sets
-- and the transactions themselves.
use neu_chain.Prelude.{
  ℕ, ◌≡◌, ◌≢◌, refl, sym, ap, ◌∙◌, subst, Bool, false, not, some, inl, inr, List, [], ◌∷◌, map,
  if◌then◌else◌, All, Pairwise, In, Bool-cases, bind-eq-some, some_inj,
}
use neu_chain.RwSet.{empty_rw_set}
use neu_chain.ReserveTable.{ReserveTable}
use neu_chain.ReserveTable.Min.{Batch, reserve_all}
use neu_chain.Transaction.{Transaction, TransactionResult, pending, is_abort_no_retry}
use neu_chain.Storage.{DbStorage}
use neu_chain.Serial.{ReadsFrom, Entry}
use neu_chain.Database.{Database}
use neu_chain.Database.Buffer.{
  SameBuffers, Buffers, Buffers-own, Buffers-kept, buffer_updates-Buffers,
}
use neu_chain.Database.Commit.{HasTwoFields}
use neu_chain.Chaincode.{Chaincode, Run}
use neu_chain.Executor.{Shared, after_run, reserved_after, buffered_after, execute_one, execute_all}

-- A transaction as it comes to a worker of the block server.
pub record IsFresh (t : Transaction) : Type 0 where
  pub has_id : t.tid ≢ 0
  pub unread : t.rw_set ≡ empty_rw_set
  pub writes : t.read_only ≡ false
  pub waits : t.result ≡ pending

-- Everything but an internal error is reserved in the table of the epoch.
abbrev pub is_reserved : TransactionResult → Bool
is_reserved r = not (is_abort_no_retry r)

abbrev pub entry : Transaction → Entry
entry t = (t.tid, t.rw_set)

abbrev pub reserved : List Transaction → Batch
reserved [] = []
reserved (t ∷ ts) = if is_reserved t.result then entry t ∷ reserved ts else reserved ts

abbrev pub tids : List Transaction → List ℕ
tids = map (λ t. t.tid)

module _ (s : DbStorage) where
  -- The set of the transaction is in the buffers of the database, with well-formed tables.
  abbrev pub IsBuffered : Database s → Transaction → Type 0
  IsBuffered d t =
      (d.rw_set_buffer t.tid ≡ some t.rw_set) × All HasTwoFields (d.table_list_buffer t.tid)

  pub record Executed (ts us : List Transaction) (w w' : Shared s) : Type 0 where
    pub same_ids : tids us ≡ tids ts
    pub table : w'.table ≡ reserve_all (reserved us) w.table
    pub view : s.view w'.database.storage ≡ s.view w.database.storage
    pub reads : All (λ u. ReadsFrom (s.view w.database.storage) u.rw_set) us
    pub buffered : All (IsBuffered w'.database) us
    pub phase : w.database.commit_phase ≡ false → w'.database.commit_phase ≡ false
    pub kept :
        w.database.commit_phase ≡ false
        → (k : ℕ) → ¬ In k (tids ts)
        → SameBuffers s w.database w'.database k

  pub record ExecutedOne (t u : Transaction) (w w' : Shared s) : Type 0 where
    pub same_id : u.tid ≡ t.tid
    pub table : w'.table ≡ reserve_all (reserved (u ∷ [])) w.table
    pub view : s.view w'.database.storage ≡ s.view w.database.storage
    pub reads : ReadsFrom (s.view w.database.storage) u.rw_set
    pub buffered : IsBuffered w'.database u
    pub phase : w'.database.commit_phase ≡ false
    pub kept :
        w.database.commit_phase ≡ false
        → (k : ℕ) → k ≢ t.tid
        → SameBuffers s w.database w'.database k

  module _ (t : Transaction) (w : Shared s) (r : Run s) (fresh : IsFresh t) where
    run_table : reserved_after s t r w.table ≡ reserve_all (reserved (after_run s t r ∷ [])) w.table
    unfolding reserve_all
    run_table = elim (Bool-cases r.succeeds) [ inl e ↦ rw (e, fresh.waits) | inr e ↦ rw e ]

    run_buffered :
        Buffers s t.tid r.rw_set r.tables
          (record w.database { storage = r.storage })
          (buffered_after s t r w.database)
    run_buffered = rw fresh.writes (buffer_updates-Buffers s t.tid r.rw_set r.tables _)

    run-ExecutedOne :
        ReadsFrom (s.view w.database.storage) r.rw_set
        → s.view r.storage ≡ s.view w.database.storage
        → All HasTwoFields r.tables
        → ExecutedOne t (after_run s t r) w (record {
          table = reserved_after s t r w.table;
          database = buffered_after s t r w.database;
        })
    run-ExecutedOne reads same tables = record {
      same_id = refl;
      table = run_table;
      view = ap s.view run_buffered.stored ∙ same;
      reads = reads;
      buffered =
          let own = Buffers-own s _ _ _ _ _ run_buffered in
          (own.0, subst (All HasTwoFields) (sym own.1) tables);
      phase = run_buffered.open_phase;
      kept = λ p k ne. Buffers-kept s _ _ _ _ _ k run_buffered p ne;
    }

  reserved-cons :
      (u : Transaction) (vs : List Transaction) (t : ReserveTable)
      → reserve_all (reserved (u ∷ vs)) t
        ≡ reserve_all (reserved vs) (reserve_all (reserved (u ∷ [])) t)
  unfolding reserve_all
  reserved-cons u vs t = elim (Bool-cases (is_reserved u.result)) [ inl e ↦ rw e | inr e ↦ rw e ]

  not-In-tids :
      (t : Transaction) (ts : List Transaction) → All (λ x. t.tid ≢ x.tid) ts → ¬ In t.tid (tids ts)
  not-In-tids t [] a i = i
  not-In-tids t (x ∷ xs) a (inl e) = a.0 e
  not-In-tids t (x ∷ xs) a (inr i) = not-In-tids t xs a.1 i

  SameBuffers-IsBuffered :
      (d d' : Database s) (u : Transaction)
      → SameBuffers s d d' u.tid
      → IsBuffered d u
      → IsBuffered d' u
  SameBuffers-IsBuffered d d' u e b = (e.0 ∙ b.0, subst (All HasTwoFields) (sym e.1) b.1)

  Executed-cons :
      (t u : Transaction) (ts us : List Transaction) (w w1 w2 : Shared s)
      → All (λ x. t.tid ≢ x.tid) ts
      → ExecutedOne t u w w1
      → Executed ts us w1 w2
      → Executed (t ∷ ts) (u ∷ us) w w2
  Executed-cons t u ts us w w1 w2 apart one rest = record {
    same_ids = rw (one.same_id, rest.same_ids);
    table = rest.table ∙ rw one.table (sym (reserved-cons u us w.table));
    view = rest.view ∙ one.view;
    reads = (one.reads, subst (λ v. All (λ x. ReadsFrom v x.rw_set) us) one.view rest.reads);
    buffered = (
      SameBuffers-IsBuffered w1.database w2.database u
          (rest.kept one.phase u.tid
            (subst (λ k. ¬ In k (tids ts)) (sym one.same_id) (not-In-tids t ts apart)))
          one.buffered,
      rest.buffered,
    );
    phase = λ p. rest.phase one.phase;
    kept = λ p k n.
        let a = one.kept p k (λ e. n (inl e)) in
        let b = rest.kept one.phase k (λ i. n (inr i)) in (b.0 ∙ a.0, b.1 ∙ a.1);
  }

  Executed-nil : (w : Shared s) → Executed [] [] w w
  unfolding reserve_all
  Executed-nil w = record {
    same_ids = refl;
    table = refl;
    view = refl;
    reads = tt;
    buffered = tt;
    phase = λ p. p;
    kept = λ p k n. (refl, refl);
  }

  module _ (c : Chaincode s) where
    execute_one-ExecutedOne :
        (t u : Transaction) (w w' : Shared s)
        → IsFresh t
        → execute_one s c t w ≡ some (u, w')
        → ExecutedOne t u w w'
    unfolding execute_one
    execute_one-ExecutedOne t u w w' f h =
        let (r, run, out) = bind-eq-some (c.invoke t w.database.storage) _ h in
        subst (λ p. ExecutedOne t p.0 w p.1) (some_inj out)
          (run-ExecutedOne t w r f (c.invoke-ReadsFrom t w.database.storage r f.unread run)
            (c.invoke-view t w.database.storage r f.unread run)
            (c.invoke-HasTwoFields t w.database.storage r f.unread run))

    -- The loop of `executeList` over fresh transactions of different ids: it reserves those without
    -- an internal error, in their order; each one's reads come from the view at the start, which
    -- is kept; and each one's set is in the buffers at the end.
    pub execute_all-Executed :
        (ts us : List Transaction) (w w' : Shared s)
        → All IsFresh ts
        → Pairwise (λ a b. a.tid ≢ b.tid) ts
        → execute_all s c ts w ≡ some (us, w')
        → Executed ts us w w'
    unfolding execute_all
    execute_all-Executed [] us w w' f d h =
        subst (λ p. Executed [] p.0 w p.1) (some_inj h) (Executed-nil w)
    execute_all-Executed (t ∷ ts) us w w' f d h =
        let ((u, w1), one, h1) = bind-eq-some (execute_one s c t w) _ h in
        let ((vs, w2), rest, h2) = bind-eq-some (execute_all s c ts w1) _ h1 in
        subst (λ p. Executed (t ∷ ts) p.0 w p.1) (some_inj h2)
          (Executed-cons t u ts vs w w1 w2 d.0 (execute_one-ExecutedOne t u w w1 f.0 one)
            (execute_all-Executed ts vs w1 w2 f.1 d.1 rest))
