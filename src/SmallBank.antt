-- ===== src/SmallBank.antt =====
-- The SmallBank chaincode, src/block_server/worker/chaincode/small_bank_chaincode.cpp: savings and
-- checking accounts in one table. A result of 0 is an internal error, false here.
pub mod Sound
pub mod Invoke
pub mod Balance
pub mod Runs
pub mod Transfer
pub mod Deposit
use neu_chain.Prelude.{
  ℕ, zero, suc, ◌%◌, String, Bool, true, false, not, ◌&&◌, ◌||◌, Option, none, some, List, [], ◌∷◌,
  str_eq, if◌then◌else◌,
}
use Prim.Native.String.{◌++◌ as ◌+++◌}
use neu_chain.Int32.{
  add_int, sub_int, negate_int, is_negative, lt_int, to_string, unsigned_text, strtol,
}
use neu_chain.Random.{initial_seed, next}
use neu_chain.Storage.{DbStorage}
use neu_chain.Orm.{Orm, pure, ◌>>=◌, ResultsIterator, has_next, execute_query, get, new_insert, set}

abbrev pub small_bank_table : String
small_bank_table = "small_bank"

abbrev pub default_balance : String
default_balance = to_string 1000

abbrev pub saving : String → String
saving account = ("saving" +++ "_") +++ account

abbrev pub checking : String → String
checking account = ("checking" +++ "_") +++ account

module _ {s : DbStorage} where
  unfoldable pub query_lambda : String → Orm s String
  query_lambda key = do
    it ← execute_query small_bank_table key
    if not (has_next it) then pure default_balance else do
      (first, it') ← get "value" it
      if str_eq first ""
          then pure default_balance
          else do (value, it'') ← get "value" it'; pure value

  unfoldable pub update_lambda : String → ℕ → Orm s (Unit {0})
  update_lambda key value = do
    ins ← new_insert small_bank_table
    (taken, ins') ← set "key" key ins
    (taken', ins'') ← set "value" (to_string value) ins'
    pure tt

  unfoldable pub query : String → Orm s Bool
  query account = do
    bal_str1 ← query_lambda (saving account)
    bal_str2 ← query_lambda (checking account)
    pure true

  -- All savings of one account to the checking account of the other.
  unfoldable pub amalgamate : String → String → Orm s Bool
  amalgamate from to = if str_eq from to then pure false else do
    src_bal_str ← query_lambda (saving from)
    dest_bal_str ← query_lambda (checking to)
    u ← update_lambda (saving from) 0
    v ← update_lambda (checking to) (add_int (strtol dest_bal_str) (strtol src_bal_str))
    pure true

  unfoldable pub update_balance : String → String → Orm s Bool
  update_balance from val = do
    bal_str ← query_lambda (checking from)
    let balance = strtol bal_str in
        let amount = strtol val in
        if is_negative amount && lt_int balance (negate_int amount)
        then pure false
        else do u ← update_lambda (checking from) (add_int balance amount); pure true

  unfoldable pub update_saving : String → String → Orm s Bool
  update_saving from val = do
    bal_str ← query_lambda (saving from)
    let balance = strtol bal_str in
        let amount = strtol val in
        if is_negative amount && lt_int balance (negate_int amount)
        then pure false
        else do u ← update_lambda (saving from) (add_int amount balance); pure true

  unfoldable pub send_payment : String → String → String → Orm s Bool
  send_payment from to amount_raw = if str_eq from to then pure false else do
    bal_str1 ← query_lambda (checking from)
    bal_str2 ← query_lambda (checking to)
    let amount = strtol amount_raw in
        let bal1 = sub_int (strtol bal_str1) amount in
        if is_negative bal1 || is_negative amount then pure false else do
          u ← update_lambda (checking from) bal1
          v ← update_lambda (checking to) (add_int (strtol bal_str2) amount)
          pure true

  unfoldable pub write_check : String → String → Orm s Bool
  write_check from amount_raw = do
    bal_str1 ← query_lambda (checking from)
    let balance = sub_int (strtol bal_str1) (strtol amount_raw) in
        if is_negative balance
        then pure false
        else do u ← update_lambda (checking from) balance; pure true

  -- One account after another, from `i` on, each with a random balance below 100.
  unfoldable pub create_accounts : (String → String) → ℕ → ℕ → ℕ → Orm s ℕ
  create_accounts name zero i seed = pure seed
  create_accounts name (suc n) i seed = do
    ins ← new_insert small_bank_table
    (taken, ins') ← set "key" (name (unsigned_text i)) ins
    let r = next seed in
        do
          (taken', ins'') ← set "value" (unsigned_text (r.0 % 100)) ins'
          create_accounts name n (suc i) r.1

  -- 10000 checking accounts, then as many savings accounts.
  unfoldable pub init_func : Orm s Bool
  init_func = do
    seed ← create_accounts checking 10000 0 initial_seed
    seed' ← create_accounts saving 10000 0 seed
    pure true

  -- `realArgs[i]`; protobuf checks the index in debug builds only.
  abbrev pub arg : List String → ℕ → Orm s String
  arg [] i h = none
  arg (a ∷ rest) zero h = some (a, h)
  arg (a ∷ rest) (suc i) h = arg rest i h

  call_1 : (String → Orm s Bool) → List String → Orm s Bool
  call_1 f args = do a ← arg args 0; f a

  call_2 : (String → String → Orm s Bool) → List String → Orm s Bool
  call_2 f args = do a ← arg args 0; b ← arg args 1; f a b

  call_3 : (String → String → String → Orm s Bool) → List String → Orm s Bool
  call_3 f args = do a ← arg args 0; b ← arg args 1; c ← arg args 2; f a b c

  -- `InvokeChaincode` of a chaincode's name and the arguments that its payload holds.
  unfoldable pub invoke_chaincode : String → List String → Orm s Bool
  unfolding call_1 call_2 call_3
  invoke_chaincode name args =
      if str_eq name "amalgamate"
      then call_2 amalgamate args
      else if str_eq name "getBalance"
      then call_1 query args
      else if str_eq name "updateBalance"
      then call_2 update_balance args
      else if str_eq name "updateSaving"
      then call_2 update_saving args
      else if str_eq name "sendPayment"
      then call_3 send_payment args
      else if str_eq name "writeCheck"
      then call_2 write_check args
      else if str_eq name "create_data"
      then init_func
      else pure false
