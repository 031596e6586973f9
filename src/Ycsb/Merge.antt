-- ===== src/Ycsb/Merge.antt =====
-- What a write of YCSB stores: the fields of the old record, with the new ones over them.
use mathlib.Core.List.{Perm}
use text.Mathlib.TextEquality.{eq_iff}
use neu_chain.Prelude.{
  ◌≡◌, refl, ap, ◌∙◌, subst, Bool, true, false, Option, none, some, [], ◌∷◌, String, str_eq,
  if◌then◌else◌, Bool-cases, inl, inr, All, Pairwise,
}
use neu_chain.Storage.{DbStorage}
use neu_chain.Orm.{Helper, push, has_write, new_insert, set}
use neu_chain.SmallBank.Runs.{bind-run, opened, named, written}
use neu_chain.Ycsb.{
  Messages, Fields, ycsb_table, assign_field, assign_fields, merge_fields, ycsb_query, ycsb_update,
  write,
}
use neu_chain.Ycsb.Invoke.{stored_record, after_ycsb_query, ycsb_query-run}

abbrev pub field : String → Fields → Option String
field k [] = none
field k ((j, x) ∷ fs) = if str_eq j k then some x else field k fs

abbrev pub or_else : Option String → Option String → Option String
or_else none o = o
or_else (some x) o = some x

-- The last value that is given to a field.
abbrev pub latest : String → Fields → Option String
latest k [] = none
latest k ((j, x) ∷ fs) = or_else (latest k fs) (if str_eq j k then some x else none)

field-assign_field :
    (k j x : String) (m : Fields)
    → field k (assign_field j x m) ≡ (if str_eq j k then some x else field k m)
unfolding assign_field
field-assign_field k j x [] = refl
field-assign_field k j x ((i, y) ∷ fs) = elim (Bool-cases (str_eq i j)) [
  | inl same ↦ rw same (rw ((eq_iff i j).0 same) (by_test (str_eq j k)))
  | inr other ↦
      rw other (rw (field-assign_field k j x fs) (apart (str_eq i k) (str_eq j k) refl refl other))
]
  where
    by_test :
        (b : Bool)
        → (if b then some x else field k fs)
          ≡ (if b then some x else if b then some y else field k fs)
    by_test true = refl
    by_test false = refl

    apart :
        (a b : Bool)
        → str_eq i k ≡ a
        → str_eq j k ≡ b
        → str_eq i j ≡ false
        → (if a then some y else if b then some x else field k fs)
          ≡ (if b then some x else if a then some y else field k fs)
    apart true true at to other =
        let meets = subst (λ t. str_eq i t ≡ false) ((eq_iff j k).0 to) other in cc
    apart true false at to other = refl
    apart false b at to other = refl

field-assign_fields :
    (k : String) (fs m : Fields) → field k (assign_fields fs m) ≡ or_else (latest k fs) (field k m)
unfolding assign_fields
field-assign_fields k [] m = refl
field-assign_fields k ((j, x) ∷ fs) m =
    field-assign_fields k fs (assign_field j x m)
    ∙ ap (or_else (latest k fs)) (field-assign_field k j x m)
    ∙ by_cases (latest k fs) (str_eq j k)
  where
    by_cases :
        (o : Option String) (b : Bool)
        → or_else o (if b then some x else field k m)
          ≡ or_else (or_else o (if b then some x else none)) (field k m)
    by_cases (some y) b = refl
    by_cases none true = refl
    by_cases none false = refl

-- No field stands twice in a record.
abbrev pub Distinct : Fields → Type 0
Distinct = Pairwise (λ (a b : String × String). str_eq a.0 b.0 ≡ false)

assign_field-All :
    (P : String → Type 0) (k x : String) (m : Fields)
    → P k
    → All (λ (b : String × String). P b.0) m
    → All (λ (b : String × String). P b.0) (assign_field k x m)
unfolding assign_field
assign_field-All P k x [] h a = (h, tt)
assign_field-All P k x ((j, y) ∷ fs) h a = elim (Bool-cases (str_eq j k)) [
  | inl same ↦ rw same (a.0, a.1)
  | inr other ↦ rw other (a.0, assign_field-All P k x fs h a.1)
]

assign_field-Distinct : (k x : String) (m : Fields) → Distinct m → Distinct (assign_field k x m)
unfolding assign_field
assign_field-Distinct k x [] d = (tt, tt)
assign_field-Distinct k x ((j, y) ∷ fs) d = elim (Bool-cases (str_eq j k)) [
  | inl same ↦ rw same (d.0, d.1)
  | inr other ↦ rw other (
    assign_field-All (λ i. str_eq j i ≡ false) k x fs other d.0,
    assign_field-Distinct k x fs d.1,
  )
]

assign_fields-Distinct : (fs m : Fields) → Distinct m → Distinct (assign_fields fs m)
unfolding assign_fields
assign_fields-Distinct [] m d = d
assign_fields-Distinct ((k, x) ∷ fs) m d =
    assign_fields-Distinct fs (assign_field k x m) (assign_field-Distinct k x m d)

module _ {s : DbStorage} (p : Messages) where
  abbrev pub after_ycsb_update : String → String → Helper s → Helper s
  after_ycsb_update key value h = record h {
    rw_set = record h.rw_set {
      writes =
          push (record { table = ycsb_table; key = key; value = value; is_delete = false })
            h.rw_set.writes;
    };
  }

  ycsb_update-run :
      (key value : String) (h : Helper s)
      → h.read_only ≡ false
      → has_write key h.rw_set.writes ≡ false
      → ycsb_update p key value h ≡ some (tt, after_ycsb_update key value h)
  unfolding ycsb_update
  ycsb_update-run key value h may fresh =
      bind-run (new_insert ycsb_table) _ h (opened ycsb_table h may)
      ∙ bind-run (set "key" key _) _ h (named ycsb_table key h)
      ∙ bind-run (set "value" value _) _ h (written ycsb_table key value h fresh)

  -- A write in a chaincode that may write, to a key that has no write yet, succeeds. It records a
  -- read of the old record and one write to the key, of all the fields of a record m, in some order.
  -- In m no field stands twice, and a field has the last value that the new record gives it, and
  -- where that gives none, the last one of the old record.
  pub write-Merges :
      (key val : String) (h : Helper s)
      → h.read_only ≡ false
      → has_write key h.rw_set.writes ≡ false
      → (m : Fields) × (all_fields : Fields) × (write p key val h
          ≡ some (
            true,
            after_ycsb_update key (p.serialize_fields all_fields) (after_ycsb_query p key h),
          ))
        × Perm all_fields m
        × Distinct m
        × ((k : String)
            → field k m
              ≡ or_else
                  (latest k (p.parse_fields val))
                  (latest k (p.parse_fields (stored_record (s.view h.storage) key))))
  unfolding write
  write-Merges key val h may fresh =
      let old = p.parse_fields (stored_record (s.view h.storage) key) in
      let new = p.parse_fields val in
      (
        merge_fields old new,
        p.in_order (merge_fields old new),
        bind-run (ycsb_query p key) _ h (ycsb_query-run p key h)
            ∙ bind-run (ycsb_update p key _) _ (after_ycsb_query p key h)
                (ycsb_update-run key _ (after_ycsb_query p key h) may fresh),
        p.in_order-Perm (merge_fields old new),
        assign_fields-Distinct new (assign_fields old []) (assign_fields-Distinct old [] tt),
        λ k.
            field-assign_fields k new (assign_fields old [])
            ∙ ap (or_else (latest k new)) (field-assign_fields k old [] ∙ none_last (latest k old)),
      )
    where
      none_last : (o : Option String) → or_else o none ≡ o
      none_last none = refl
      none_last (some x) = refl
