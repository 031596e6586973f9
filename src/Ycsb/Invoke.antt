-- ===== src/Ycsb/Invoke.antt =====
-- A run of the YCSB chaincode for a transaction meets the interface that the executor relies on.
use text.Mathlib.TextEquality.{eq_iff}
use neu_chain.Prelude.{
  All-push, ◌≡◌, refl, sym, ap, ◌∙◌, subst, Bool, true, false, Option, none, some, List, String,
  str_eq, if◌then◌else◌, Bool-cases, inl, inr, some_inj, bind-eq-some, All,
}
use neu_chain.RwSet.{empty_rw_set}
use neu_chain.Storage.{DbStorage}
use neu_chain.Serial.{View, ReadsFrom}
use neu_chain.Database.Commit.{HasTwoFields}
use neu_chain.Transaction.{Transaction}
use neu_chain.Chaincode.{Chaincode, Run}
use neu_chain.Orm.{Helper, new_helper, Orm, pure, ◌>>=◌, push, execute_query, get, get_string}
use neu_chain.Orm.Sound.{
  IsSound, Sound, pure-Sound, bind-Sound, if-Sound, new_insert-Sound, set-Sound,
}
use neu_chain.SmallBank.{arg}
use neu_chain.SmallBank.Sound.{arg-Sound}
use neu_chain.Ycsb.{
  Messages, ycsb_table, def_value, ycsb_query, ycsb_update, write, del, read, invoke_ycsb,
}

-- The record that is stored, "default_value" where there is none.
abbrev pub stored_record : View → String → String
stored_record v key = if str_eq (v (ycsb_table, key)) "" then def_value else v (ycsb_table, key)

module _ {s : DbStorage} (p : Messages) where
  -- The helper after a query: one read more.
  abbrev pub after_ycsb_query : String → Helper s → Helper s
  after_ycsb_query key h = record h {
    rw_set = record h.rw_set {
      reads =
          push
            (record {
              table = ycsb_table;
              key = key;
              value = (s.select_db (ycsb_table, key) h.storage).0;
            })
            h.rw_set.reads;
    };
    storage = (s.select_db (ycsb_table, key) h.storage).1;
  }

  pub ycsb_query-run :
      (key : String) (h : Helper s)
      → ycsb_query p key h ≡ some (stored_record (s.view h.storage) key, after_ycsb_query key h)
  unfolding ycsb_query neu_chain.Orm.◌>>=◌ execute_query get get_string
  ycsb_query-run key h =
      let again = (eq_iff key key).1 refl in
      rw (sym (s.select_db-value (ycsb_table, key) h.storage))
        (elim (Bool-cases (str_eq (s.select_db (ycsb_table, key) h.storage).0 "")) [
          | inl e ↦ rw e refl
          | inr e ↦ rw e (rw (again) refl)
        ])

module _ (s : DbStorage) (v : View) (p : Messages) where
  ycsb_query-Sound : (key : String) → Sound s v (ycsb_query p key)
  unfolding Sound
  ycsb_query-Sound key h h' a i e =
      subst (IsSound s v) (ap (λ r. r.1) (some_inj (sym (ycsb_query-run p key h) ∙ e))) (record {
        same_view = s.select_db-view (ycsb_table, key) h.storage ∙ i.same_view;
        reads = All-push _ _ h.rw_set.reads i.reads (
            sym (
              s.select_db-value (ycsb_table, key) h.storage
              ∙ ap (λ w. w (ycsb_table, key)) i.same_view));
        two_fields = i.two_fields;
      })

  ycsb_update-Sound : (key value : String) → Sound s v (ycsb_update p key value)
  unfolding ycsb_update
  ycsb_update-Sound key value = bind-Sound s v _ _ (new_insert-Sound s v _) (λ ins.
      bind-Sound s v _ _ (set-Sound s v _ _ _)
        (λ a. bind-Sound s v _ _ (set-Sound s v _ _ _) (λ b. pure-Sound s v tt)))

  write-Sound : (key val : String) → Sound s v (write p key val)
  unfolding write
  write-Sound key val =
      bind-Sound s v _ _ (ycsb_query-Sound key)
        (λ a. bind-Sound s v _ _ (ycsb_update-Sound _ _) (λ b. pure-Sound s v true))

  del-Sound : (key : String) → Sound s v (del p key)
  unfolding del
  del-Sound key = bind-Sound s v _ _ (ycsb_update-Sound _ _) (λ b. pure-Sound s v true)

  read-Sound : (key filter : String) → Sound s v (read p key filter)
  unfolding read
  read-Sound key filter = bind-Sound s v _ _ (ycsb_query-Sound key) (λ b. pure-Sound s v true)

  invoke_ycsb-Sound : (name : String) (args : List String) → Sound s v (invoke_ycsb p name args)
  unfolding invoke_ycsb
  invoke_ycsb-Sound name args = if-Sound s v _ _ _ (two (write p) write-Sound) (
      if-Sound s v _ _ _ (bind-Sound s v _ _ (arg-Sound s v args 0) del-Sound)
        (if-Sound s v _ _ _ (two (read p) read-Sound) (pure-Sound s v false)))
    where
      two :
          (f : String → String → Orm s Bool)
          → ((a b : String) → Sound s v (f a b))
          → Sound s v (arg args 0 >>= (λ a. arg args 1 >>= (λ b. f a b)))
      two f k =
          bind-Sound s v _ _ (arg-Sound s v args 0)
            (λ a. bind-Sound s v _ _ (arg-Sound s v args 1) (λ b. k a b))

-- `ChaincodeObject::InvokeChaincode` on the payload of a transaction, with protobuf's parser of
-- `YCSB_PAYLOAD`, cut down to the field `reads`.
module _ (s : DbStorage) (p : Messages) (parse : String → List String) where
  abbrev fresh_helper : Transaction → s.State → Helper s
  fresh_helper t st = new_helper t.tid t.read_only t.rw_set st

  unfoldable pub run_ycsb : Transaction → s.State → Option (Run s)
  run_ycsb t st =
      elim (invoke_ycsb p t.payload.header (parse t.payload.payload) (fresh_helper t st)) [
        | none ↦ none
        | some (ok, h) ↦ some (record {
          succeeds = ok;
          rw_set = h.rw_set;
          tables = h.table_list;
          storage = h.storage;
        })
      ]

  -- What a run of YCSB keeps, for a transaction with an empty set: every recorded read is the value
  -- that the storage has for its key, the run changes no value of the storage, and every table that
  -- it defines has two columns.
  pub run_ycsb-ReadsFrom :
      (t : Transaction) (st : s.State) (r : Run s)
      → t.rw_set ≡ empty_rw_set
      → run_ycsb t st ≡ some r
      → ReadsFrom (s.view st) r.rw_set × (s.view r.storage ≡ s.view st) × All HasTwoFields r.tables
  unfolding run_ycsb Sound
  run_ycsb-ReadsFrom t st r fresh e =
      let (q, run, out) =
        bind-eq-some (invoke_ycsb p t.payload.header (parse t.payload.payload) (fresh_helper t st))
          _ e in
      let i =
        invoke_ycsb-Sound s (s.view st) p t.payload.header (parse t.payload.payload) _ q.1 q.0
          begins run in
      subst
        (λ x.
          ReadsFrom (s.view st) x.rw_set
          × (s.view x.storage ≡ s.view st)
          × All HasTwoFields x.tables)
        (some_inj out) (i.reads, i.same_view, i.two_fields)
    where
      begins : IsSound s (s.view st) (fresh_helper t st)
      begins = record {
        same_view = refl;
        reads = subst (ReadsFrom (s.view st)) (sym fresh) tt;
        two_fields = tt;
      }

  abbrev pub ycsb : Chaincode s
  ycsb = record {
    invoke = run_ycsb;
    invoke-ReadsFrom = λ t st r u e. (run_ycsb-ReadsFrom t st r u e).0;
    invoke-view = λ t st r u e. (run_ycsb-ReadsFrom t st r u e).1;
    invoke-HasTwoFields = λ t st r u e. (run_ycsb-ReadsFrom t st r u e).2;
  }
