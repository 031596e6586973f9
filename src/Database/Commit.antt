-- ===== src/Database/Commit.antt =====
-- What a commit does to the view of the storage, and when it goes through.
use neu_chain.Prelude.{
  ℕ, ◌≡◌, refl, ap, ◌∙◌, String, true, some, List, [], ◌∷◌, update, length, All, Bool-cases, inl,
  inr, arith,
}
use neu_chain.RwSet.{KvWrite, KvRwSet, write_key}
use neu_chain.Storage.{DbStorage}
use neu_chain.Serial.{written, apply_writes}
use neu_chain.Database.{
  TableDefinition, Database, create_tables, create_one, write_one, write_all, commit_update,
}

abbrev pub HasTwoFields : TableDefinition → Type 0
HasTwoFields t = length t.fields ≡ 2

module _ (s : DbStorage) where
  open s use {State, view, view-create_table, view-update, view-remove}

  write_one-view :
      (w : KvWrite) (st : State)
      → view (write_one s w st) ≡ update (view st) (write_key w) (written w)
  unfolding write_one
  write_one-view w st = elim (Bool-cases w.is_delete) [
    | inl e ↦ rw e (view-remove (write_key w) st)
    | inr e ↦ rw e (view-update (write_key w) w.value st)
  ]

  pub write_all-view :
      (ws : List KvWrite) (st : State) → view (write_all s ws st) ≡ apply_writes ws (view st)
  unfolding write_all apply_writes
  write_all-view [] st = refl
  write_all-view (w ∷ ws) st =
      write_all-view ws (write_one s w st) ∙ ap (apply_writes ws) (write_one-view w st)

  create_one_lem :
      (name : String) (fields : List String) (st : State)
      → length fields ≡ 2
      → (st' : State) × (create_one s (record { table_name = name; fields = fields }) st ≡ some st')
        × (view st' ≡ view st)
  unfolding create_one
  create_one_lem name [] st h = absurd (omega arith)
  create_one_lem name (k ∷ []) st h = absurd (omega arith)
  create_one_lem name (k ∷ v ∷ []) st h = (_, refl, view-create_table name k v st)
  create_one_lem name (k ∷ v ∷ x ∷ xs) st h = absurd (omega arith)

  -- Tables of two columns are created, and change no value.
  pub create_tables_lem :
      (ts : List TableDefinition) (st : State)
      → All HasTwoFields ts
      → (st' : State) × (create_tables s ts st ≡ some st') × (view st' ≡ view st)
  unfolding create_tables
  create_tables_lem [] st h = (st, refl, refl)
  create_tables_lem (t ∷ ts) st h =
      let one = create_one_lem t.table_name t.fields st h.0 in
      let rest = create_tables_lem ts one.0 h.1 in
      (rest.0, rw (one.1, create_tables) rest.1, rest.2 ∙ one.2)

  -- The state after the commit of a buffered set.
  pub record Commits (d : Database s) (set : KvRwSet) (d' : Database s) : Type 0 where
    pub applied : view d'.storage ≡ apply_writes set.writes (view d.storage)
    pub sets_kept : d'.rw_set_buffer ≡ d.rw_set_buffer
    pub tables_kept : d'.table_list_buffer ≡ d.table_list_buffer
    pub entered : d'.commit_phase ≡ true

  -- A commit of a buffered transaction, whose tables have two columns each, goes through: it
  -- applies the buffered writes to the view, enters the commit phase, and leaves the buffers.
  pub commit_update-Commits :
      (tid : ℕ) (set : KvRwSet) (d : Database s)
      → d.rw_set_buffer tid ≡ some set
      → All HasTwoFields (d.table_list_buffer tid)
      → (d' : Database s) × (commit_update s tid d ≡ some (d', true)) × Commits d set d'
  unfolding commit_update
  commit_update-Commits tid set d e h =
      let made = create_tables_lem (d.table_list_buffer tid) d.storage h in
      (
        record d { commit_phase = true; storage = write_all s set.writes made.0 },
        rw (made.1, e, commit_update),
        record {
          applied = write_all-view set.writes made.0 ∙ ap (apply_writes set.writes) made.2;
          sets_kept = refl;
          tables_kept = refl;
          entered = refl;
        },
      )
