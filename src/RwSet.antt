-- ===== src/RwSet.antt =====
-- The read and write sets of a transaction: `KVRWSet`, `KVRead` and `KVWrite` of
-- include/proto/kv_rwset.proto. The fields for range queries and metadata are not used by any code.
use neu_chain.Prelude.{String, Bool, List, [], map, Key}

pub record KvRead : Type 0 where
  pub table : String
  pub key : String
  pub value : String

pub record KvWrite : Type 0 where
  pub table : String
  pub key : String
  pub value : String
  pub is_delete : Bool

pub record KvRwSet : Type 0 where
  pub reads : List KvRead
  pub writes : List KvWrite

-- `Clear()`.
abbrev pub empty_rw_set : KvRwSet
empty_rw_set = record { reads = []; writes = [] }

abbrev pub read_key : KvRead → Key
read_key r = (r.table, r.key)

abbrev pub write_key : KvWrite → Key
write_key w = (w.table, w.key)

abbrev pub read_keys : KvRwSet → List Key
read_keys s = map read_key s.reads

abbrev pub write_keys : KvRwSet → List Key
write_keys s = map write_key s.writes
