-- ===== src/Database.antt =====
-- The database of the block server, src/block_server/database/impl/database_impl.cpp: the write
-- sets that are buffered while an epoch is executed, and written to the storage when it commits.
-- `HashMap<tid_size_t, KVRWSet*>` is a function to options. The buffer holds pointers to the sets
-- of the transactions; no code changes a set between its buffering and its commit.
pub mod Buffer
pub mod Commit
use neu_chain.Prelude.{
  ℕ, String, Bool, true, false, Option, none, some, List, [], ◌∷◌, ◌==◌, if◌then◌else◌,
}
use neu_chain.RwSet.{KvWrite, KvRwSet, write_key}
use neu_chain.Storage.{DbStorage}

-- `ORMTableImpl`: a name, and the column names of its fields.
pub record TableDefinition : Type 0 where
  pub table_name : String
  pub fields : List String

-- A map over ids, with one entry given anew.
abbrev pub set_entry : {V : Type 0} → ℕ → V → (ℕ → V) → ℕ → V
set_entry k v f j = if k == j then v else f j

module _ (s : DbStorage) where
  open s use {State, create_table, update_write_set, remove_write_set}

  pub record Database : Type 0 where
    pub commit_phase : Bool
    pub rw_set_buffer : ℕ → Option KvRwSet
    pub table_list_buffer : ℕ → List TableDefinition
    pub storage : State

  -- `clearBufferThreadSafe`: the test is made twice, around a lock.
  unfoldable pub clear_buffer_thread_safe : Database → Database
  clear_buffer_thread_safe d =
      if d.commit_phase
      then record d { rw_set_buffer = λ k. none; table_list_buffer = λ k. []; commit_phase = false }
      else d

  -- The function that the constructor gives to the storage as `bufferUpdates`.
  unfoldable pub buffer_updates : ℕ → KvRwSet → List TableDefinition → Database → Database
  unfolding clear_buffer_thread_safe
  buffer_updates tid set tables d =
      let c = if d.commit_phase then clear_buffer_thread_safe d else d in
      record c {
        rw_set_buffer = set_entry tid (some set) c.rw_set_buffer;
        table_list_buffer = set_entry tid tables c.table_list_buffer;
      }

  -- `CHECK(table->fieldSize() == 2)` stops the process: no state.
  unfoldable pub create_one : TableDefinition → State → Option State
  create_one t st = elim t.fields [
    | k ∷ rest ↦ elim rest [
      | v ∷ more ↦ elim more [ [] ↦ some (create_table t.table_name k v st) | x ∷ xs ↦ none ]
      | [] ↦ none
    ]
    | [] ↦ none
  ]

  unfoldable pub create_tables : List TableDefinition → State → Option State
  unfolding create_one
  create_tables [] st = some st
  create_tables (t ∷ ts) st = elim (create_one t st) [
    | none ↦ none
    | some st' ↦ create_tables ts st'
  ]

  unfoldable pub write_one : KvWrite → State → State
  write_one w st =
      if w.is_delete
      then remove_write_set (write_key w) st
      else update_write_set (write_key w) w.value st

  unfoldable pub write_all : List KvWrite → State → State
  unfolding write_one
  write_all [] st = st
  write_all (w ∷ ws) st = write_all ws (write_one w st)

  -- A missing set is a null pointer, whose `writes()` has no behaviour: no state either.
  -- The Boolean result is true whenever the call returns.
  unfoldable pub commit_update : ℕ → Database → Option (Database × Bool)
  unfolding create_tables write_all
  commit_update tid d = elim (create_tables (d.table_list_buffer tid) d.storage) [
    | none ↦ none
    | some st ↦ elim (d.rw_set_buffer tid) [
      | none ↦ none
      | some set ↦ some (record d { commit_phase = true; storage = write_all set.writes st }, true)
    ]
  ]

  unfoldable pub abort_update : ℕ → Database → Database
  abort_update tid d = record d { commit_phase = true }
