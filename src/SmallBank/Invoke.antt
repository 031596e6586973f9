-- ===== src/SmallBank/Invoke.antt =====
-- A run of the SmallBank chaincode for a transaction, src/block_server/worker/impl/chaincode_object.cpp:
-- the helper over the set of the transaction, and the chaincode that the payload names.
use neu_chain.Prelude.{
  ◌≡◌, refl, sym, subst, Option, none, some, List, String, All, some_inj, bind-eq-some,
}
use neu_chain.RwSet.{empty_rw_set}
use neu_chain.Storage.{DbStorage}
use neu_chain.Serial.{ReadsFrom}
use neu_chain.Database.Commit.{HasTwoFields}
use neu_chain.Transaction.{Transaction}
use neu_chain.Chaincode.{Chaincode, Run}
use neu_chain.Orm.{Helper, new_helper}
use neu_chain.Orm.Sound.{IsSound, Sound}
use neu_chain.SmallBank.Sound.{invoke_chaincode-Sound}
use neu_chain.SmallBank.{invoke_chaincode}

-- `ChaincodeObject::InvokeChaincode` on the payload of a transaction. `parse` is protobuf's parser
-- of `YCSB_PAYLOAD`, cut down to the field `reads`.
module _ (s : DbStorage) (parse : String → List String) where
  abbrev helper_of : Transaction → s.State → Helper s
  helper_of t st = new_helper t.tid t.read_only t.rw_set st

  unfoldable pub invoke : Transaction → s.State → Option (Run s)
  invoke t st =
      elim (invoke_chaincode t.payload.header (parse t.payload.payload) (helper_of t st)) [
        | none ↦ none
        | some (ok, h) ↦ some (record {
          succeeds = ok;
          rw_set = h.rw_set;
          tables = h.table_list;
          storage = h.storage;
        })
      ]

  -- What a run of the chaincode keeps, for a transaction with an empty set: every recorded read is
  -- the value that the storage has for its key, the run changes no value of the storage, and every
  -- table that it defines has two columns.
  pub invoke-ReadsFrom :
      (t : Transaction) (st : s.State) (r : Run s)
      → t.rw_set ≡ empty_rw_set
      → invoke t st ≡ some r
      → ReadsFrom (s.view st) r.rw_set × (s.view r.storage ≡ s.view st) × All HasTwoFields r.tables
  unfolding invoke Sound
  invoke-ReadsFrom t st r empty e =
      let (p, run, out) =
        bind-eq-some (invoke_chaincode t.payload.header (parse t.payload.payload) (helper_of t st))
          _ e in
      let i =
        invoke_chaincode-Sound s (s.view st) t.payload.header (parse t.payload.payload) _ p.1 p.0
          begins run in
      subst
        (λ q.
          ReadsFrom (s.view st) q.rw_set
          × (s.view q.storage ≡ s.view st)
          × All HasTwoFields q.tables)
        (some_inj out) (i.reads, i.same_view, i.two_fields)
    where
      begins : IsSound s (s.view st) (helper_of t st)
      begins = record {
        same_view = refl;
        reads = subst (ReadsFrom (s.view st)) (sym empty) tt;
        two_fields = tt;
      }

  abbrev pub small_bank : Chaincode s
  small_bank = record {
    invoke = invoke;
    invoke-ReadsFrom = λ t st r u e. (invoke-ReadsFrom t st r u e).0;
    invoke-view = λ t st r u e. (invoke-ReadsFrom t st r u e).1;
    invoke-HasTwoFields = λ t st r u e. (invoke-ReadsFrom t st r u e).2;
  }
