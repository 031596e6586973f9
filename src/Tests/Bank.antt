-- ===== src/Tests/Bank.antt =====
-- The theorems on the SmallBank chaincode and the random numbers at concrete accounts.
use neu_chain.Prelude.{
  ◌≡◌, ◌≤◌, ◌||◌, refl, inr, false, Option, none, some, List, [], ◌∷◌, String, str_eq,
  if◌then◌else◌, Key, All, arith,
}
use neu_chain.RwSet.{empty_rw_set}
use neu_chain.Random.{initial_seed, uniform_dist, uniform_dist-bounds}
use neu_chain.Int32.{sub_int, is_negative, strtol}
use neu_chain.Serial.{ReadsFrom}
use neu_chain.Database.Commit.{HasTwoFields}
use neu_chain.Transaction.{Transaction}
use neu_chain.Chaincode.{Run}
use neu_chain.Orm.{Helper}
use neu_chain.SmallBank.{
  saving, checking, send_payment, amalgamate, update_balance, update_saving, write_check,
}
use neu_chain.SmallBank.Balance.{balance}
use neu_chain.SmallBank.Invoke.{invoke, invoke-ReadsFrom}
use neu_chain.SmallBank.Runs.{after_update}
use neu_chain.SmallBank.Sound.{after_query}
use neu_chain.SmallBank.Transfer.{begin, committed_view, RefusesOrMoves, send_payment-Moved}
use neu_chain.SmallBank.Deposit.{RefusesOrChanges, update_balance-solvent, write_check-Changed}
use neu_chain.Tests.Data.{function_storage, copy}

-- Two accounts with a checking account each; the savings are not stored.
abbrev accounts : Key → String
accounts k =
    if str_eq k.1 "checking_ann" then "70" else if str_eq k.1 "checking_bob" then "-5" else ""

send_payment-Moved_example :
    (h : Helper function_storage) × RefusesOrMoves function_storage 7 accounts
      (send_payment "ann" "bob" "30")
      (str_eq "ann" "bob"
        || (is_negative (sub_int (balance accounts (checking "ann")) (strtol "30"))
            || is_negative (strtol "30")))
      (checking "ann")
      (checking "bob")
      (strtol "30")
      h
send_payment-Moved_example = send_payment-Moved function_storage 7 accounts "ann" "bob" "30"

-- The helper that the run leaves.
abbrev emptied : Helper function_storage
emptied =
    after_update (checking "ann") 0
      (after_query (checking "ann") (begin function_storage 7 accounts))

update_balance-solvent_example :
    is_negative (balance (committed_view function_storage 7 accounts emptied) (checking "ann"))
    ≡ false
unfolding update_balance strtol neu_chain.Orm.◌>>=◌ neu_chain.SmallBank.query_lambda
    neu_chain.Orm.execute_query neu_chain.Orm.get neu_chain.SmallBank.update_lambda
    neu_chain.Orm.new_insert neu_chain.Orm.set
update_balance-solvent_example =
    update_balance-solvent function_storage 7 accounts "ann" "-70" emptied refl (λ h. omega arith)
      (inr refl) refl

write_check-Changed_example :
    (h : Helper function_storage) × RefusesOrChanges function_storage 7 accounts
      (write_check "ann" "71")
      (is_negative (sub_int (balance accounts (checking "ann")) (strtol "71")))
      (checking "ann")
      (sub_int (balance accounts (checking "ann")) (strtol "71"))
      h
write_check-Changed_example = write_check-Changed function_storage 7 accounts "ann" "71"

uniform_dist-bounds_example :
    (10 ≤ (uniform_dist 10 99 initial_seed).0) × ((uniform_dist 10 99 initial_seed).0 ≤ 99)
uniform_dist-bounds_example =
    uniform_dist-bounds 10 99 initial_seed (omega arith) (omega arith) (omega arith)

-- A payload parser that finds one argument; the chaincode reads two values.
abbrev asks : Transaction
asks = copy 3 "getBalance" "ann"

abbrev one_argument : String → List String
one_argument text = text ∷ []

abbrev run_of : Option (Run function_storage) → Run function_storage
run_of none = record { succeeds = false; rw_set = empty_rw_set; tables = []; storage = accounts }
run_of (some r) = r

abbrev answered : Run function_storage
answered = run_of (invoke function_storage one_argument asks accounts)

invoke-ReadsFrom_example :
    ReadsFrom accounts answered.rw_set
    × (answered.storage ≡ accounts)
    × All HasTwoFields answered.tables
unfolding invoke neu_chain.SmallBank.invoke_chaincode neu_chain.SmallBank.query neu_chain.Orm.◌>>=◌
    neu_chain.SmallBank.query_lambda neu_chain.Orm.execute_query neu_chain.Orm.get
invoke-ReadsFrom_example =
    invoke-ReadsFrom function_storage one_argument asks accounts answered refl refl
