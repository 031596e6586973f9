-- ===== src/Executor/Commit.antt =====
-- What `commitList` does to the transactions and to the view of the storage.
use neu_chain.Prelude.{
  ℕ, ◌≡◌, ◌≢◌, ◌⊎◌, refl, sym, ap, ◌∙◌, subst, Bool, true, false, Option, some, inl, inr, List, [],
  ◌∷◌, map, if◌then◌else◌, keep, All, Bool-cases, arith,
}
use neu_chain.RwSet.{KvRwSet}
use neu_chain.ReserveTable.{ReserveTable, dependency_analysis}
use neu_chain.Decision.{Verdict, overwrites, commits, crosses, decide}
use neu_chain.Transaction.{
  Transaction, TransactionResult, commit, pending, abort, abort_no_retry, is_abort_no_retry,
}
use neu_chain.Storage.{DbStorage}
use neu_chain.Serial.{View, Entry, apply_all}
use neu_chain.Serial.Conflicts.{lets_commit}
use neu_chain.Database.{Database, abort_update}
use neu_chain.Database.Commit.{HasTwoFields, commit_update-Commits}
use neu_chain.Executor.{commit_one, commit_checked, commit_allowed, commit_list, with_result}
use neu_chain.Executor.Execute.{is_reserved, entry, reserved, IsBuffered}

module _ (table : ReserveTable) where
  abbrev pub verdict : Entry → Verdict
  verdict e = decide (dependency_analysis e.1 e.0 table)

  abbrev pub passes : Entry → Bool
  passes e = lets_commit (verdict e)

  -- The result that a transaction ends with.
  abbrev pub settled : Transaction → TransactionResult
  settled t =
      if is_abort_no_retry t.result then t.result else if passes (entry t) then commit else abort

  abbrev pub settle : Transaction → Transaction
  settle t = with_result t (settled t)

  pub settled-ne-pending : (t : Transaction) → settled t ≢ pending
  settled-ne-pending t = elim (Bool-cases (is_abort_no_retry t.result)) [
    | inl e ↦ rw e (internal t.result e)
    | inr e ↦ rw e (ground arith)
  ]
    where
      internal : (r : TransactionResult) → is_abort_no_retry r ≡ true → r ≢ pending
      internal abort_no_retry h = λ q. cc
      internal commit h = cc
      internal pending h = cc
      internal abort h = cc

  -- The entries of the transactions that commit.
  abbrev pub passing : List Transaction → List Entry
  passing ts = keep passes (reserved ts)

phase_cases : (p : Bool) → (p ≡ false) ⊎ (p ≡ true)
phase_cases true = inr refl
phase_cases false = inl refl

module _ (s : DbStorage) (table : ReserveTable) where
  pub record Committed (ts : List Transaction) (d d' : Database s) : Type 0 where
    pub view : s.view d'.storage ≡ apply_all (passing table ts) (s.view d.storage)
    pub sets_kept : d'.rw_set_buffer ≡ d.rw_set_buffer
    pub tables_kept : d'.table_list_buffer ≡ d.table_list_buffer
    pub phase_kept : (d.commit_phase ≡ false) ⊎ (d'.commit_phase ≡ true)

  abbrev CommitsOne : Transaction → Database s → Type 0
  CommitsOne t d =
      (d' : Database s) × (commit_one s table t d ≡ some (settle table t, d'))
      × Committed (t ∷ []) d d'

  commit_one_internal :
      (t : Transaction) (d : Database s) → is_abort_no_retry t.result ≡ true → CommitsOne t d
  unfolding commit_one abort_update apply_all
  commit_one_internal t d e = (
    record d { commit_phase = true },
    rw (e, commit_one),
    record { view = rw e; sets_kept = refl; tables_kept = refl; phase_kept = inr refl },
  )

  commit_one_checked :
      (t : Transaction) (d : Database s) (v : Verdict)
      → IsBuffered s d t
      → is_abort_no_retry t.result ≡ false
      → verdict table (entry t) ≡ v
      → CommitsOne t d
  unfolding commit_one abort_update apply_all
  commit_one_checked t d overwrites b e q = (
    d,
    rw (e, commit_one, commit_checked, q),
    record {
      view = rw (e, q);
      sets_kept = refl;
      tables_kept = refl;
      phase_kept = phase_cases d.commit_phase;
    },
  )
  commit_one_checked t d crosses b e q = (
    record d { commit_phase = true },
    rw (e, commit_one, commit_checked, q),
    record { view = rw (e, q); sets_kept = refl; tables_kept = refl; phase_kept = inr refl },
  )
  commit_one_checked t d commits b e q =
      let (d', done, c) = commit_update-Commits s t.tid t.rw_set d b.0 b.1 in
      (
        d',
        rw (e, commit_one, commit_checked, q) (rw (done, commit_allowed)),
        record {
          view = rw (e, q) c.applied;
          sets_kept = c.sets_kept;
          tables_kept = c.tables_kept;
          phase_kept = inr c.entered;
        },
      )

  commit_one-CommitsOne : (t : Transaction) (d : Database s) → IsBuffered s d t → CommitsOne t d
  commit_one-CommitsOne t d b = elim (Bool-cases (is_abort_no_retry t.result)) [
    | inl e ↦ commit_one_internal t d e
    | inr e ↦ commit_one_checked t d (verdict table (entry t)) b e refl
  ]

  passing-cons :
      (t : Transaction) (ts : List Transaction) (v : View)
      → apply_all (passing table (t ∷ ts)) v
        ≡ apply_all (passing table ts) (apply_all (passing table (t ∷ [])) v)
  unfolding apply_all
  passing-cons t ts v = elim (Bool-cases (is_reserved t.result)) [
    | inr e ↦ rw e
    | inl e ↦ elim (Bool-cases (passes table (entry t))) [ inl p ↦ rw (e, p) | inr p ↦ rw (e, p) ]
  ]

  pub commit_list-Committed :
      (ts : List Transaction) (d : Database s)
      → All (IsBuffered s d) ts
      → (d' : Database s) × (commit_list s table ts d ≡ some (map (settle table) ts, d'))
        × Committed ts d d'
  unfolding commit_list apply_all
  commit_list-Committed [] d b = (
    d,
    refl,
    record {
      view = refl;
      sets_kept = refl;
      tables_kept = refl;
      phase_kept = phase_cases d.commit_phase;
    },
  )
  commit_list-Committed (t ∷ ts) d b =
      let (d1, done, one) = commit_one-CommitsOne t d b.0 in
      let (d2, rest, all) = commit_list-Committed ts d1 (later d1 one ts b.1) in
      (
        d2,
        rw (done, commit_list) (rw (rest, commit_list)),
        record {
          view =
              all.view
              ∙ ap (apply_all (passing table ts)) one.view
              ∙ sym (passing-cons t ts (s.view d.storage));
          sets_kept = all.sets_kept ∙ one.sets_kept;
          tables_kept = all.tables_kept ∙ one.tables_kept;
          phase_kept = either one.phase_kept all.phase_kept;
        },
      )
    where
      either :
          {p q r : Bool}
          → (p ≡ false) ⊎ (q ≡ true)
          → (q ≡ false) ⊎ (r ≡ true)
          → (p ≡ false) ⊎ (r ≡ true)
      either a b = ground arith

      later :
          (e : Database s)
          → Committed (t ∷ []) d e
          → (us : List Transaction) → All (IsBuffered s d) us
          → All (IsBuffered s e) us
      later e c [] h = tt
      later e c (u ∷ us) h = (
        (
          ap (λ (f : ℕ → Option KvRwSet). f u.tid) c.sets_kept ∙ h.0.0,
          subst (λ f. All HasTwoFields (f u.tid)) (sym c.tables_kept) h.0.1,
        ),
        later e c us h.1,
      )
