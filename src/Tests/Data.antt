-- ===== src/Tests/Data.antt =====
-- A storage that is a function, a chaincode that copies a value to another key, and transactions.
use neu_chain.Prelude.{
  ℕ, ◌≡◌, refl, sym, ap, subst, String, true, false, none, some, List, [], ◌∷◌, Key, update, All,
  some_inj,
}
use neu_chain.RwSet.{KvRead, KvWrite, KvRwSet, empty_rw_set}
use neu_chain.Transaction.{Transaction, pending}
use neu_chain.Storage.{DbStorage}
use neu_chain.Database.{Database}
use neu_chain.Database.Commit.{HasTwoFields}
use neu_chain.Serial.{ReadsFrom}
use neu_chain.Chaincode.{Chaincode, Run}

abbrev pub function_storage : DbStorage
function_storage = record {
  State = Key → String;
  view = λ s. s;
  create_table = λ t k v s. s;
  select_db = λ k s. (s k, s);
  update_write_set = λ k v s. update s k v;
  remove_write_set = λ k s. update s k "";
  view-create_table = λ t k v s. refl;
  select_db-value = λ k s. refl;
  select_db-view = λ k s. refl;
  view-update = λ k v s. refl;
  view-remove = λ k s. refl;
}

-- Reads the key that the header names, and writes the value to the key that the payload names.
abbrev pub copied : Transaction → (Key → String) → Run function_storage
copied t st = record {
  succeeds = true;
  rw_set = record {
    reads = record { table = "t"; key = t.payload.header; value = st ("t", t.payload.header) } ∷ [];
    writes =
        record {
          table = "t";
          key = t.payload.payload;
          value = st ("t", t.payload.header);
          is_delete = false;
        }
        ∷ [];
  };
  tables = [];
  storage = st;
}

pub copied-ReadsFrom :
    (t : Transaction) (st : Key → String) (r : Run function_storage)
    → t.rw_set ≡ empty_rw_set
    → some (copied t st) ≡ some r
    → ReadsFrom st r.rw_set
copied-ReadsFrom t st r e h = subst (λ x. ReadsFrom st x.rw_set) (some_inj h) (refl, tt)

pub copied-view :
    (t : Transaction) (st : Key → String) (r : Run function_storage)
    → t.rw_set ≡ empty_rw_set
    → some (copied t st) ≡ some r
    → r.storage ≡ st
copied-view t st r u h = sym (ap (λ (x : Run function_storage). x.storage) (some_inj h))

pub copied-HasTwoFields :
    (t : Transaction) (st : Key → String) (r : Run function_storage)
    → t.rw_set ≡ empty_rw_set
    → some (copied t st) ≡ some r
    → All HasTwoFields r.tables
copied-HasTwoFields t st r u h = subst (λ x. All HasTwoFields x.tables) (some_inj h) tt

abbrev pub copy_chaincode : Chaincode function_storage
copy_chaincode = record {
  invoke = λ t st. some (copied t st);
  invoke-ReadsFrom = copied-ReadsFrom;
  invoke-view = copied-view;
  invoke-HasTwoFields = copied-HasTwoFields;
}

abbrev pub copy : ℕ → String → String → Transaction
copy tid from to = record {
  epoch = 4;
  tid = tid;
  read_only = false;
  rw_set = empty_rw_set;
  result = pending;
  payload = record { header = from; payload = to; nonce = 0; digest = "" };
}

-- The second overwrites what the first writes; the third reads it.
abbrev pub transfers : List Transaction
transfers = copy 1 "a" "b" ∷ copy 2 "c" "b" ∷ copy 3 "b" "d" ∷ []

abbrev pub values : Key → String
values k = k.1

abbrev pub database : Database function_storage
database = record {
  commit_phase = false;
  rw_set_buffer = λ k. none;
  table_list_buffer = λ k. [];
  storage = values;
}

abbrev pub write_of : String → String → KvWrite
write_of k v = record { table = "t"; key = k; value = v; is_delete = false }

abbrev pub read_of : String → String → KvRead
read_of k v = record { table = "t"; key = k; value = v }

abbrev pub set_of : String → String → String → KvRwSet
set_of from to v = record { reads = read_of from v ∷ []; writes = write_of to v ∷ [] }
