-- ===== src/Orm/Sound.antt =====
-- What a chaincode keeps while it runs: its recorded reads are values of the view of the storage,
-- that view does not change, and its tables have two columns.
use neu_chain.Prelude.{
  ◌≡◌, sym, ap, subst, Bool, true, false, none, some, String, str_eq, if◌then◌else◌, All, some_inj,
  bind-eq-some,
}
use neu_chain.RwSet.{KvRwSet}
use neu_chain.Storage.{DbStorage}
use neu_chain.Serial.{View, ReadsFrom}
use neu_chain.Database.Commit.{HasTwoFields}
use neu_chain.Orm.{Helper, Orm, pure, ◌>>=◌, push, Insert, has_write, new_insert, set, set_attr}

-- A test that stops the process.
pub guard_some {ℓ} :
    {A : Type ℓ} (c : Bool) {x y : A} → (if c then none else some x) ≡ some y → x ≡ y
guard_some true h = cc
guard_some false h = some_inj h

set_attr-reads :
    (attr value : String) (ins : Insert) (rws : KvRwSet) (r : Bool × Insert × KvRwSet)
    → set_attr attr value ins rws ≡ some r
    → r.2.reads ≡ rws.reads
unfolding set_attr
set_attr-reads attr value ins rws r e = by_tests (str_eq attr "key") (str_eq attr "value") e
  where
    by_tests :
        (is_key is_value : Bool)
        → (if is_key
            then some (true, record ins { key = value }, rws)
            else if is_value
            then if has_write ins.key rws.writes
              then none
              else some (
                true,
                ins,
                record rws {
                  writes =
                      push
                        (record {
                          table = ins.table;
                          key = ins.key;
                          value = value;
                          is_delete = false;
                        })
                        rws.writes;
                },
              )
            else some (false, ins, rws))
          ≡ some r
        → r.2.reads ≡ rws.reads
    by_tests true is_value h = sym (ap (λ x. x.2.reads) (some_inj h))
    by_tests false false h = sym (ap (λ x. x.2.reads) (some_inj h))
    by_tests false true h = sym (ap (λ x. x.2.reads) (guard_some _ h))

module _ (s : DbStorage) (v : View) where
  pub record IsSound (h : Helper s) : Type 0 where
    pub same_view : s.view h.storage ≡ v
    pub reads : ReadsFrom v h.rw_set
    pub two_fields : All HasTwoFields h.table_list

  -- A computation keeps this.
  unfoldable pub Sound : {A : Type 0} → Orm s A → Type 0
  Sound {A} m = (h h' : Helper s) (a : A) → IsSound h → m h ≡ some (a, h') → IsSound h'

  pub pure-Sound : {A : Type 0} (a : A) → Sound (pure a)
  unfolding Sound
  pure-Sound a h h' b i e = subst IsSound (ap (λ r. r.1) (some_inj e)) i

  pub bind-Sound :
      {A B : Type 0} (m : Orm s A) (f : A → Orm s B)
      → Sound m
      → ((a : A) → Sound (f a))
      → Sound (m >>= f)
  unfolding Sound neu_chain.Orm.◌>>=◌
  bind-Sound m f k l h h' b i e =
      let (r, first, rest) = bind-eq-some (m h) (λ r. f r.0 r.1) e in
      l r.0 r.1 h' b (k h r.1 r.0 i first) rest

  pub if-Sound :
      {A : Type 0} (c : Bool) (m n : Orm s A) → Sound m → Sound n → Sound (if c then m else n)
  if-Sound true m n k l = k
  if-Sound false m n k l = l

  -- A write records no read.
  pub new_insert-Sound : (table : String) → Sound (new_insert table)
  unfolding Sound new_insert
  new_insert-Sound table h h' a i e = subst IsSound (ap (λ r. r.1) (guard_some h.read_only e)) i

  pub set-Sound : (attr value : String) (ins : Insert) → Sound (set attr value ins)
  unfolding Sound set
  set-Sound attr value ins h h' a i e =
      let (r, taken, rest) =
        bind-eq-some (set_attr attr value ins h.rw_set)
          (λ r. some ((r.0, r.1), record h { rw_set = r.2 })) e in
      subst IsSound (ap (λ x. x.1) (some_inj rest)) (record {
        same_view = i.same_view;
        reads = subst (All _) (sym (set_attr-reads attr value ins h.rw_set r taken)) i.reads;
        two_fields = i.two_fields;
      })
