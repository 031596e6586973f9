-- ===== src/Storage.antt =====
-- The interface of the storage under the database, include/block_server/database/db_storage.h:
-- the operations, and what the database relies on, stated of the view that the storage gives.
pub mod LevelDb
use neu_chain.Prelude.{◌≡◌, String, Key, update}

pub record DbStorage : Type 1 where
  pub State : Type 0
  -- The value of each key, the empty text where there is none.
  pub view : State → Key → String
  pub create_table : String → String → String → State → State
  -- The value behind the iterator that `selectDB` returns.
  pub select_db : Key → State → String × State
  pub update_write_set : Key → String → State → State
  pub remove_write_set : Key → State → State
  pub view-create_table : (t k v : String) (s : State) → view (create_table t k v s) ≡ view s
  pub select_db-value : (k : Key) (s : State) → (select_db k s).0 ≡ view s k
  pub select_db-view : (k : Key) (s : State) → view (select_db k s).1 ≡ view s
  pub view-update :
      (k : Key) (v : String) (s : State) → view (update_write_set k v s) ≡ update (view s) k v
  pub view-remove : (k : Key) (s : State) → view (remove_write_set k s) ≡ update (view s) k ""
