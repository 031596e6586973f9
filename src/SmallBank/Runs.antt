-- ===== src/SmallBank/Runs.antt =====
-- The pieces that the chaincodes are composed of, run on a helper.
use neu_chain.Prelude.{ℕ, ◌≡◌, refl, ap, ◌∙◌, true, false, none, some, String, if◌then◌else◌}
use neu_chain.Storage.{DbStorage}
use neu_chain.Serial.{View}
use neu_chain.RwSet.{KvWrite}
use neu_chain.Int32.{to_string}
use neu_chain.Orm.{Helper, Orm, pure, ◌>>=◌, push, has_write, new_insert, set, set_attr}
use neu_chain.SmallBank.{small_bank_table, query_lambda, update_lambda}
use neu_chain.SmallBank.Sound.{stored, after_query, query_lambda-run}

abbrev pub bank_write : String → ℕ → KvWrite
bank_write key n = record {
  table = small_bank_table;
  key = key;
  value = to_string n;
  is_delete = false;
}

module _ {s : DbStorage} where
  abbrev pub after_update : String → ℕ → Helper s → Helper s
  after_update key n h = record h {
    rw_set = record h.rw_set { writes = push (bank_write key n) h.rw_set.writes };
  }

  pub bind-run :
      {A B : Type 0} (m : Orm s A) (f : A → Orm s B) (h : Helper s) {a : A} {h' : Helper s}
      → m h ≡ some (a, h')
      → (m >>= f) h ≡ f a h'
  unfolding neu_chain.Orm.◌>>=◌
  bind-run m f h e = ap (λ o. elim o [ none ↦ none | some p ↦ f p.0 p.1 ]) e

  -- A query in a helper whose storage has the view.
  pub query_lambda-at :
      (v : View) (key : String) (h : Helper s)
      → s.view h.storage ≡ v
      → query_lambda key h ≡ some (stored v key, after_query key h)
  query_lambda-at v key h e =
      query_lambda-run key h ∙ ap (λ w. some (stored w key, after_query key h)) e

  pub opened :
      (table : String) (h : Helper s)
      → h.read_only ≡ false
      → new_insert table h ≡ some (record { table = table; key = "" }, h)
  unfolding new_insert
  opened table h may =
      ap (λ c. if c then none else some (record { table = table; key = "" }, h)) may

  pub named :
      (table key : String) (h : Helper s)
      → set "key" key (record { table = table; key = "" }) h
        ≡ some ((true, record { table = table; key = key }), h)
  unfolding set set_attr
  named table key h = refl

  pub written :
      (table key value : String) (h : Helper s)
      → has_write key h.rw_set.writes ≡ false
      → set "value" value (record { table = table; key = key }) h
        ≡ some (
          (true, record { table = table; key = key }),
          record h {
            rw_set = record h.rw_set {
              writes =
                  push
                    (record { table = table; key = key; value = value; is_delete = false })
                    h.rw_set.writes;
            };
          },
        )
  unfolding set set_attr
  written table key value h fresh = rw (fresh, set, set_attr) refl

  -- An update of a key that has no write yet, in a chaincode that may write.
  pub update_lambda-run :
      (key : String) (n : ℕ) (h : Helper s)
      → h.read_only ≡ false
      → has_write key h.rw_set.writes ≡ false
      → update_lambda key n h ≡ some (tt, after_update key n h)
  unfolding update_lambda
  update_lambda-run key n h may fresh =
      bind-run (new_insert small_bank_table) _ h (opened small_bank_table h may)
      ∙ bind-run (set "key" key _) _ h (named small_bank_table key h)
      ∙ bind-run (set "value" (to_string n) _) _ h
          (written small_bank_table key (to_string n) h fresh)
