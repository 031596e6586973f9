-- ===== src/Tests/Storage.antt =====
-- The theorem on the LevelDB storage, with partitions that are functions.
use neu_chain.Prelude.{◌≡◌, refl, String, Option, none, some, str_eq, if◌then◌else◌, same_key}
use neu_chain.Storage.LevelDb.{
  LevelDb, LevelDbStorage, value_read, update_write_set, remove_write_set, select_db-last,
}

abbrev function_db : LevelDb
function_db = record {
  Db = String → Option String;
  open_db = λ t. some (λ k. none);
  opens = λ t. ((λ k. none), refl);
  get = λ d k. d k;
  put = λ k v d j. if str_eq k j then some v else d j;
  delete = λ k d j. if str_eq k j then none else d j;
  get-put = λ k v j d. refl;
  get-delete = λ k j d. refl;
}

abbrev unopened : LevelDbStorage function_db
unopened t = none

-- The same key in another table.
select_db-last_example :
    (x : String) × (t : LevelDbStorage function_db) × (u : LevelDbStorage function_db) × (value_read
        function_db
        ("u", "a")
        unopened
      ≡ some x)
    × (update_write_set function_db ("t", "a") "v" unopened ≡ some t)
    × (value_read function_db ("u", "a") t
        ≡ some (if same_key ("t", "a") ("u", "a") then "v" else x))
    × (remove_write_set function_db ("t", "a") unopened ≡ some u)
    × (value_read function_db ("u", "a") u
        ≡ some (if same_key ("t", "a") ("u", "a") then "" else x))
select_db-last_example = select_db-last function_db ("t", "a") ("u", "a") "v" unopened
