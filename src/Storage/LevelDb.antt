-- ===== src/Storage/LevelDb.antt =====
-- The storage over LevelDB, src/block_server/database/impl/level_db_storage.cpp: a partition for
-- each table, opened when it is first used. LevelDB itself is a parameter. An
-- operation for which a `CHECK` stops the process has no result.
use neu_chain.Prelude.{
  ◌≡◌, refl, ap, ◌∙◌, fun_ext, String, Option, none, some, str_eq, if◌then◌else◌, Key, same_key,
  update, Bool-cases, Option-cases, subst, inl, inr, arith,
}
use neu_chain.Storage.{DbStorage}
use text.Mathlib.TextEquality.{eq_iff}

-- What the storage uses of leveldb::DB. A partition is a map from keys to values; `open_db` gives
-- the partition as it lies on the disk, and none where its status is not ok. The disk is taken to be
-- one on which every partition opens, and on which puts and deletes succeed.
pub record LevelDb : Type 1 where
  pub Db : Type 0
  pub open_db : String → Option Db
  pub opens : (t : String) → (d : Db) × (open_db t ≡ some d)
  pub get : Db → String → Option String
  pub put : String → String → Db → Db
  pub delete : String → Db → Db
  pub get-put :
      (k v j : String) (d : Db) → get (put k v d) j ≡ (if str_eq k j then some v else get d j)
  pub get-delete :
      (k j : String) (d : Db) → get (delete k d) j ≡ (if str_eq k j then none else get d j)

abbrev pub or_empty : Option String → String
or_empty none = ""
or_empty (some v) = v

module _ (l : LevelDb) where
  open l use {Db, open_db, opens, get, put, delete, get-put, get-delete}

  -- `HashMap<std::string, std::shared_ptr<leveldb::DB>> db`.
  abbrev pub LevelDbStorage : Type 0
  LevelDbStorage = String → Option Db

  pub set_table : String → Db → LevelDbStorage → LevelDbStorage
  set_table t d s u = if str_eq t u then some d else s u

  -- Opens the partition at the first call, with a `CHECK` that this succeeds.
  unfoldable pub get_table : String → LevelDbStorage → Option (Db × LevelDbStorage)
  get_table t s = elim (s t) [
    | some d ↦ some (d, s)
    | none ↦ elim (open_db t) [ none ↦ none | some d ↦ some (d, set_table t d s) ]
  ]

  pub create_table : String → String → String → LevelDbStorage → LevelDbStorage
  create_table t k v s = s

  -- A failed `Get` leaves the empty text.
  unfoldable pub select_db : Key → LevelDbStorage → Option (String × LevelDbStorage)
  select_db k s = elim (get_table k.0 s) [
    | none ↦ none
    | some (d, s') ↦ some (or_empty (get d k.1), s')
  ]

  unfoldable pub update_write_set : Key → String → LevelDbStorage → Option LevelDbStorage
  update_write_set k v s = elim (get_table k.0 s) [
    | none ↦ none
    | some (d, s') ↦ some (set_table k.0 (put k.1 v d) s')
  ]

  unfoldable pub remove_write_set : Key → LevelDbStorage → Option LevelDbStorage
  remove_write_set k s = elim (get_table k.0 s) [
    | none ↦ none
    | some (d, s') ↦ some (set_table k.0 (delete k.1 d) s')
  ]

  -- What these give, since every partition opens.
  abbrev partition : Option Db → String → Db
  partition none t = (opens t).0
  partition (some d) t = d

  got : String → LevelDbStorage → Db × LevelDbStorage
  got t s = elim (s t) [ none ↦ ((opens t).0, set_table t (opens t).0 s) | some d ↦ (d, s) ]

  get_table-got : (t : String) (s : LevelDbStorage) → get_table t s ≡ some (got t s)
  unfolding get_table got
  get_table-got t s = elim (Option-cases (s t)) [
    | inr (d, e) ↦ rw (e, get_table, got) refl
    | inl e ↦ rw (e, get_table, got) (rw (opens t).1 refl)
  ]

  pub selected : Key → LevelDbStorage → String × LevelDbStorage
  selected k s = let (d, s') = got k.0 s in (or_empty (get d k.1), s')

  select_db-runs : (k : Key) (s : LevelDbStorage) → select_db k s ≡ some (selected k s)
  unfolding select_db selected
  select_db-runs k s = rw (get_table-got k.0 s, select_db) refl

  pub updated : Key → String → LevelDbStorage → LevelDbStorage
  updated k v s = let (d, s') = got k.0 s in set_table k.0 (put k.1 v d) s'

  update_write_set-runs :
      (k : Key) (v : String) (s : LevelDbStorage) → update_write_set k v s ≡ some (updated k v s)
  unfolding update_write_set updated
  update_write_set-runs k v s = rw (get_table-got k.0 s, update_write_set) refl

  pub removed : Key → LevelDbStorage → LevelDbStorage
  removed k s = let (d, s') = got k.0 s in set_table k.0 (delete k.1 d) s'

  remove_write_set-runs : (k : Key) (s : LevelDbStorage) → remove_write_set k s ≡ some (removed k s)
  unfolding remove_write_set removed
  remove_write_set-runs k s = rw (get_table-got k.0 s, remove_write_set) refl

  pub view : LevelDbStorage → Key → String
  view s k = or_empty (get (partition (s k.0) k.0) k.1)

  got-value : (t : String) (s : LevelDbStorage) → (got t s).0 ≡ partition (s t) t
  unfolding got
  got-value t s = ground arith

  -- Opening a partition changes no value.
  got-partition :
      (t u : String) (s : LevelDbStorage) → partition ((got t s).1 u) u ≡ partition (s u) u
  unfolding got set_table
  got-partition t u s = elim (Option-cases (s t)) [
    | inr (d, e) ↦ rw (e, got)
    | inl e ↦ elim (Bool-cases (str_eq t u)) [
      | inr q ↦ rw (e, got, set_table, q)
      | inl q ↦
          rw (e, got, set_table, q)
            (subst (λ w. (opens t).0 ≡ partition (s w) w) ((eq_iff t u).0 q) (rw e))
    ]
  ]

  pub view-create_table :
      (t k v : String) (s : LevelDbStorage) → view (create_table t k v s) ≡ view s
  unfolding create_table
  view-create_table t k v s = refl

  pub selected-value : (k : Key) (s : LevelDbStorage) → (selected k s).0 ≡ view s k
  unfolding selected view
  selected-value k s = ap (λ d. or_empty (get d k.1)) (got-value k.0 s)

  pub selected-view : (k : Key) (s : LevelDbStorage) → view (selected k s).1 ≡ view s
  unfolding selected view
  selected-view k s = fun_ext (λ j. ap (λ d. or_empty (get d j.1)) (got-partition k.0 j.0 s))

  view-set_table :
      (k : Key) (x : Option String) (d : Db) (s : LevelDbStorage)
      → ((j : String) → get d j ≡ (if str_eq k.1 j then x else get (got k.0 s).0 j))
      → view (set_table k.0 d (got k.0 s).1) ≡ update (view s) k (or_empty x)
  unfolding view set_table same_key
  view-set_table k x d s h = fun_ext (λ j. elim (Bool-cases (str_eq k.0 j.0)) [
    | inr q ↦ rw q (ap (λ e. or_empty (get e j.1)) (got-partition k.0 j.0 s))
    | inl q ↦ rw q (
        rw (h j.1) (elim (Bool-cases (str_eq k.1 j.1)) [
          | inl r ↦ rw r
          | inr r ↦ rw r (
              ap (λ e. or_empty (get e j.1)) (got-value k.0 s)
              ∙ ap (λ w. or_empty (get (partition (s w) w) j.1)) ((eq_iff k.0 j.0).0 q))
        ]))
  ])

  pub view-update :
      (k : Key) (v : String) (s : LevelDbStorage) → view (updated k v s) ≡ update (view s) k v
  unfolding updated
  view-update k v s =
      view-set_table k (some v) (put k.1 v (got k.0 s).0) s (λ j. get-put k.1 v j (got k.0 s).0)

  pub view-remove : (k : Key) (s : LevelDbStorage) → view (removed k s) ≡ update (view s) k ""
  unfolding removed
  view-remove k s =
      view-set_table k none (delete k.1 (got k.0 s).0) s (λ j. get-delete k.1 j (got k.0 s).0)

  -- The storage meets the interface that the database relies on.
  abbrev pub level_db_storage : DbStorage
  level_db_storage = record {
    State = LevelDbStorage;
    view = view;
    create_table = create_table;
    select_db = selected;
    update_write_set = updated;
    remove_write_set = removed;
    view-create_table = view-create_table;
    select_db-value = selected-value;
    select_db-view = selected-view;
    view-update = view-update;
    view-remove = view-remove;
  }

  -- The value that a read gives.
  abbrev value_of : Option (String × LevelDbStorage) → Option String
  value_of none = none
  value_of (some (v, s)) = some v

  abbrev pub value_read : Key → LevelDbStorage → Option String
  value_read k s = value_of (select_db k s)

  value_read-view : (k : Key) (s : LevelDbStorage) → value_read k s ≡ some (view s k)
  value_read-view k s = ap value_of (select_db-runs k s) ∙ ap some (selected-value k s)

  -- On a disk on which partitions open, a read returns the value that was written last, and no check
  -- stops a read, a write or a removal. After a value has been stored at a key, a read of that key,
  -- in the same table, returns it, and after the key has been removed the empty text; a read of any
  -- other key, also of the same key in another table, returns what it did before.
  pub select_db-last :
      (k j : Key) (v : String) (s : LevelDbStorage)
      → (x : String) × (t : LevelDbStorage) × (u : LevelDbStorage) × (value_read j s ≡ some x)
        × (update_write_set k v s ≡ some t)
        × (value_read j t ≡ some (if same_key k j then v else x))
        × (remove_write_set k s ≡ some u)
        × (value_read j u ≡ some (if same_key k j then "" else x))
  select_db-last k j v s = (
    view s j,
    updated k v s,
    removed k s,
    value_read-view j s,
    update_write_set-runs k v s,
    value_read-view j (updated k v s) ∙ ap (λ (f : Key → String). some (f j)) (view-update k v s),
    remove_write_set-runs k s,
    value_read-view j (removed k s) ∙ ap (λ (f : Key → String). some (f j)) (view-remove k s),
  )
