-- ===== src/Orm.antt =====
-- The interface of a chaincode to the storage, src/block_server/database/orm: `CCORMHelper`, its
-- queries with `LevelDBResultsIterator`, and its inserts. A chaincode is a computation on the
-- helper; a failed `CHECK` leaves no result.
pub mod Sound
use neu_chain.Prelude.{
  ℕ, suc, ◌+◌, String, Bool, true, false, not, Option, none, some, List, [], ◌∷◌, ◌++◌, ◌==◌,
  str_eq, if◌then◌else◌,
}
use neu_chain.RwSet.{KvRead, KvWrite, KvRwSet, empty_rw_set}
use neu_chain.Storage.{DbStorage}
use neu_chain.Database.{TableDefinition}
use neu_chain.Int32.{unsigned_text}
use Prim.Native.String.{◌++◌ as ◌+++◌}

-- `push_back`, and protobuf's `add_`.
abbrev pub push {ℓ} : {A : Type ℓ} → A → List A → List A
push x xs = xs ++ x ∷ []

-- `LevelDBResultsIterator`.
pub record ResultsIterator : Type 0 where
  pub read_keys : List String
  pub table : String
  pub index : ℕ
  pub key : String
  pub value : String

-- `std::set::count`.
abbrev pub has_key : String → List String → Bool
has_key k [] = false
has_key k (j ∷ js) = if str_eq j k then true else has_key k js

-- `1 - index`, as a truth value.
abbrev pub has_next : ResultsIterator → Bool
has_next it = not (it.index == 1)

abbrev pub next : ResultsIterator → Bool × ResultsIterator
next it = if has_next it then (true, record it { index = suc it.index }) else (false, it)

abbrev pub read_of_iterator : ResultsIterator → KvRead
read_of_iterator it = record { table = it.table; key = it.key; value = it.value }

-- The first read of an iterator is recorded.
unfoldable pub get_string : String → ResultsIterator → KvRwSet → String × ResultsIterator × KvRwSet
get_string attr it set =
    let seen = has_key it.key it.read_keys in
    (
      if str_eq attr "key" then it.key else it.value,
      if seen then it else record it { read_keys = it.key ∷ it.read_keys },
      if seen then set else record set { reads = push (read_of_iterator it) set.reads },
    )

-- `InsertImpl`, with the key that it buffers.
pub record Insert : Type 0 where
  pub table : String
  pub key : String

-- Whether any write has the key, in whatever table.
abbrev pub has_write : String → List KvWrite → Bool
has_write k [] = false
has_write k (w ∷ ws) = if str_eq w.key k then true else has_write k ws

-- `InsertImpl::set`: the attribute is taken or not; a second write of a key stops the process.
unfoldable pub set_attr : String → String → Insert → KvRwSet → Option (Bool × Insert × KvRwSet)
set_attr attr value ins set =
    if str_eq attr "key"
    then some (true, record ins { key = value }, set)
    else if str_eq attr "value"
    then if has_write ins.key set.writes
      then none
      else some (
        true,
        ins,
        record set {
          writes =
              push (record { table = ins.table; key = ins.key; value = value; is_delete = false })
                set.writes;
        },
      )
    else some (false, ins, set)

module _ (s : DbStorage) where
  pub record Helper : Type 0 where
    pub tid : ℕ
    pub read_only : Bool
    pub rw_set : KvRwSet
    pub table_list : List TableDefinition
    pub storage : s.State

  abbrev pub Orm : Type 0 → Type 0
  Orm A = Helper → Option (A × Helper)

module _ {s : DbStorage} where
  -- The constructor: a transaction comes with an empty set.
  abbrev pub new_helper : ℕ → Bool → KvRwSet → s.State → Helper s
  new_helper tid read_only set st = record {
    tid = tid;
    read_only = read_only;
    rw_set = set;
    table_list = [];
    storage = st;
  }

  abbrev pub pure : {A : Type 0} → A → Orm s A
  pure a h = some (a, h)

  infixl 5 ◌>>=◌
  unfoldable pub ◌>>=◌ : {A B : Type 0} → Orm s A → (A → Orm s B) → Orm s B
  m >>= f = λ h. elim (m h) [ none ↦ none | some (a, h') ↦ f a h' ]

  -- `createTable`: a write to the system's table, and a table with the given fields.
  unfoldable pub create_table : String → List String → Orm s (Unit {0})
  create_table name fields h = some (
    tt,
    record h {
      rw_set = record h.rw_set {
        writes =
            push
              (record {
                table = "aria_sys_table";
                key = name;
                value = "place holder of " +++ unsigned_text h.tid;
                is_delete = false;
              })
              h.rw_set.writes;
      };
      table_list = push (record { table_name = name; fields = fields }) h.table_list;
    },
  )

  -- `newQuery`, `filter` and `executeQuery`.
  unfoldable pub execute_query : String → String → Orm s ResultsIterator
  execute_query table col h =
      let r = s.select_db (table, col) h.storage in
      some (
        record { read_keys = []; table = table; index = 0; key = col; value = r.0 },
        record h { storage = r.1 },
      )

  unfoldable pub get : String → ResultsIterator → Orm s (String × ResultsIterator)
  unfolding get_string
  get attr it h =
      let r = get_string attr it h.rw_set in some ((r.0, r.1), record h { rw_set = r.2 })

  -- `newInsert`: a chaincode that is read-only may not write.
  unfoldable pub new_insert : String → Orm s Insert
  new_insert table h = if h.read_only then none else some (record { table = table; key = "" }, h)

  unfoldable pub set : String → String → Insert → Orm s (Bool × Insert)
  unfolding set_attr
  set attr value ins h = elim (set_attr attr value ins h.rw_set) [
    | none ↦ none
    | some (taken, ins', rws) ↦ some ((taken, ins'), record h { rw_set = rws })
  ]
