-- ===== src/Tests/Records.antt =====
-- The theorems on the YCSB chaincode at a concrete record: each is one field with a value.
use mathlib.Core.List.{Perm}
use mathlib.Core.List.Perm
use neu_chain.Prelude.{◌≡◌, refl, String, true, false, some, List, [], ◌∷◌, All}
use neu_chain.Serial.{ReadsFrom}
use neu_chain.Database.Commit.{HasTwoFields}
use neu_chain.Chaincode.{Run}
use neu_chain.Orm.{Helper, new_helper}
use neu_chain.Ycsb.{Messages, Fields, write}
use neu_chain.Ycsb.Invoke.{run_ycsb, run_ycsb-ReadsFrom, stored_record, after_ycsb_query}
use neu_chain.Ycsb.Merge.{Distinct, field, latest, or_else, after_ycsb_update, write-Merges}
use neu_chain.Tests.Data.{function_storage, copy, values}
use neu_chain.RwSet.{empty_rw_set}

abbrev first_value : Fields → String
first_value [] = ""
first_value (f ∷ fs) = f.1

abbrev one_field : Messages
one_field = record {
  parse_fields = λ t. ("name", t) ∷ [];
  serialize_fields = first_value;
  in_order = λ f. f;
  in_order-Perm = λ f. Perm.refl f;
}

abbrev arguments : String → List String
arguments t = "ann" ∷ t ∷ []

abbrev writer : Helper function_storage
writer = new_helper 7 false empty_rw_set values

write-Merges_example :
    (m : Fields) × (all_fields : Fields) × (write one_field "ann" "new" writer
      ≡ some (
        true,
        after_ycsb_update one_field "ann"
            (first_value all_fields)
            (after_ycsb_query one_field "ann" writer),
      ))
    × Perm all_fields m
    × Distinct m
    × ((k : String)
        → field k m
          ≡ or_else
              (latest k (("name", "new") ∷ []))
              (latest k (("name", stored_record values "ann") ∷ [])))
write-Merges_example = write-Merges one_field "ann" "new" writer refl refl

abbrev written_run : Run function_storage
written_run = record {
  succeeds = true;
  rw_set = record {
    reads = record { table = "ycsb"; key = "ann"; value = "ann" } ∷ [];
    writes = record { table = "ycsb"; key = "ann"; value = "new"; is_delete = false } ∷ [];
  };
  tables = [];
  storage = values;
}

run_ycsb-ReadsFrom_example :
    ReadsFrom values written_run.rw_set × (values ≡ values) × All HasTwoFields []
unfolding run_ycsb neu_chain.Ycsb.invoke_ycsb neu_chain.Ycsb.write neu_chain.Ycsb.ycsb_query
    neu_chain.Ycsb.ycsb_update neu_chain.Ycsb.assign_field neu_chain.Ycsb.assign_fields
    neu_chain.Orm.◌>>=◌ neu_chain.Orm.execute_query neu_chain.Orm.get neu_chain.Orm.new_insert
    neu_chain.Orm.set
run_ycsb-ReadsFrom_example =
    run_ycsb-ReadsFrom function_storage one_field arguments (copy 7 "write" "new") values
      written_run refl refl
