-- ===== src/Ycsb.antt =====
-- The YCSB chaincode, src/block_server/worker/chaincode/ycsb_chaincode.cpp: records with fields, one
-- record to a key of its table. A result of 0 is an internal error, false here.
pub mod Invoke
pub mod Merge
use mathlib.Core.List.{Perm}
use neu_chain.Prelude.{
  ◌≡◌, String, Bool, true, false, not, Option, none, some, List, [], ◌∷◌, str_eq, if◌then◌else◌,
}
use neu_chain.Storage.{DbStorage}
use neu_chain.Orm.{Orm, pure, ◌>>=◌, has_next, execute_query, get, new_insert, set}
use neu_chain.SmallBank.{arg}

-- The fields of a record, with their values: the messages of a `YCSB_FOR_BLOCK_BENCH`.
abbrev pub Fields : Type 0
Fields = List (String × String)

-- protobuf, and the order in which a `std::unordered_map` is gone through: all of its fields, each as
-- often as it is there. A parser gives what it has read, also where it fails: the code does not look
-- at its result.
pub record Messages : Type 0 where
  pub parse_fields : String → Fields
  pub serialize_fields : Fields → String
  pub in_order : Fields → Fields
  pub in_order-Perm : (f : Fields) → Perm (in_order f) f

abbrev pub ycsb_table : String
ycsb_table = "ycsb"

abbrev pub def_value : String
def_value = "default_value"

-- `tmp[key] = value`.
unfoldable pub assign_field : String → String → Fields → Fields
assign_field k x [] = (k, x) ∷ []
assign_field k x ((j, y) ∷ fs) =
    let rest = assign_field k x fs in if str_eq j k then (j, x) ∷ fs else (j, y) ∷ rest

unfoldable pub assign_fields : Fields → Fields → Fields
assign_fields [] m = m
assign_fields ((k, x) ∷ fs) m = assign_fields fs (assign_field k x m)

-- The fields of the old record, then those of the new one.
abbrev pub merge_fields : Fields → Fields → Fields
merge_fields old new = assign_fields new (assign_fields old [])

module _ {s : DbStorage} (p : Messages) where
  unfoldable pub ycsb_query : String → Orm s String
  ycsb_query key = do
    it ← execute_query ycsb_table key
    if not (has_next it) then pure def_value else do
      (first, it') ← get "value" it
      if str_eq first "" then pure def_value else do (value, it'') ← get "value" it'; pure value

  unfoldable pub ycsb_update : String → String → Orm s (Unit {0})
  ycsb_update key value = do
    ins ← new_insert ycsb_table
    (taken, ins') ← set "key" key ins
    (taken', ins'') ← set "value" value ins'
    pure tt

  unfoldable pub write : String → String → Orm s Bool
  write key val = do
    old ← ycsb_query key
    u ←
        ycsb_update key
          (p.serialize_fields (p.in_order (merge_fields (p.parse_fields old) (p.parse_fields val))))
    pure true

  unfoldable pub del : String → Orm s Bool
  del key = do u ← ycsb_update key ""; pure true

  -- The filter is parsed, and not applied.
  unfoldable pub read : String → String → Orm s Bool
  read key filter = do payload ← ycsb_query key; pure true

  with_one : (String → Orm s Bool) → List String → Orm s Bool
  with_one f args = do a ← arg args 0; f a

  with_two : (String → String → Orm s Bool) → List String → Orm s Bool
  with_two f args = do a ← arg args 0; b ← arg args 1; f a b

  -- `create_data` has the result 0 of `InitFunc`.
  unfoldable pub invoke_ycsb : String → List String → Orm s Bool
  unfolding with_one with_two
  invoke_ycsb name args =
      if str_eq name "write"
      then with_two write args
      else if str_eq name "del"
      then with_one del args
      else if str_eq name "read"
      then with_two read args
      else pure false
