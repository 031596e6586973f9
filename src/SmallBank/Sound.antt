-- ===== src/SmallBank/Sound.antt =====
-- The SmallBank chaincode meets the interface that the executor relies on.
use neu_chain.Prelude.{
  All-push, ℕ, zero, suc, ◌≡◌, refl, sym, ap, ◌∙◌, subst, Bool, true, false, some, List, [], ◌∷◌,
  String, str_eq, if◌then◌else◌, Bool-cases, inl, inr, some_inj,
}
use text.Mathlib.TextEquality.{eq_iff}
use neu_chain.Storage.{DbStorage}
use neu_chain.Serial.{View}
use neu_chain.Orm.{
  Helper, new_helper, Orm, pure, ◌>>=◌, push, execute_query, get, get_string, new_insert, set,
}
use neu_chain.Random.{initial_seed}
use neu_chain.Orm.Sound.{
  IsSound, Sound, pure-Sound, bind-Sound, if-Sound, new_insert-Sound, set-Sound,
}
use neu_chain.SmallBank.{
  saving, checking, small_bank_table, default_balance, query_lambda, update_lambda, query,
  amalgamate, update_balance, update_saving, send_payment, write_check, create_accounts, init_func,
  arg, invoke_chaincode,
}

-- The value that is stored, 1000 where there is none.
abbrev pub stored : View → String → String
stored v key =
    if str_eq (v (small_bank_table, key)) "" then default_balance else v (small_bank_table, key)

module _ {s : DbStorage} where
  -- The helper after a query: one read more.
  abbrev pub after_query : String → Helper s → Helper s
  after_query key h = record h {
    rw_set = record h.rw_set {
      reads =
          push
            (record {
              table = small_bank_table;
              key = key;
              value = (s.select_db (small_bank_table, key) h.storage).0;
            })
            h.rw_set.reads;
    };
    storage = (s.select_db (small_bank_table, key) h.storage).1;
  }

  -- A query records one read, of the value in the view, and gives that value, or the default.
  pub query_lambda-run :
      (key : String) (h : Helper s)
      → query_lambda key h ≡ some (stored (s.view h.storage) key, after_query key h)
  unfolding query_lambda neu_chain.Orm.◌>>=◌ execute_query get get_string
  query_lambda-run key h =
      let again = (eq_iff key key).1 refl in
      rw (sym (s.select_db-value (small_bank_table, key) h.storage))
        (elim (Bool-cases (str_eq (s.select_db (small_bank_table, key) h.storage).0 "")) [
          | inl e ↦ rw e refl
          | inr e ↦ rw e (rw (again) refl)
        ])

module _ (s : DbStorage) (v : View) where
  query_lambda-Sound : (key : String) → Sound s v (query_lambda key)
  unfolding Sound
  query_lambda-Sound key h h' a i e =
      subst (IsSound s v) (ap (λ r. r.1) (some_inj (sym (query_lambda-run key h) ∙ e))) (record {
        same_view = s.select_db-view (small_bank_table, key) h.storage ∙ i.same_view;
        reads = All-push _ _ h.rw_set.reads i.reads (
            sym (
              s.select_db-value (small_bank_table, key) h.storage
              ∙ ap (λ w. w (small_bank_table, key)) i.same_view));
        two_fields = i.two_fields;
      })

  update_lambda-Sound : (key : String) (n : ℕ) → Sound s v (update_lambda key n)
  unfolding update_lambda
  update_lambda-Sound key n = bind-Sound s v _ _ (new_insert-Sound s v _) (λ ins.
      bind-Sound s v _ _ (set-Sound s v _ _ _)
        (λ a. bind-Sound s v _ _ (set-Sound s v _ _ _) (λ b. pure-Sound s v tt)))

  query-Sound : (account : String) → Sound s v (query account)
  unfolding query
  query-Sound account =
      bind-Sound s v _ _ (query_lambda-Sound _)
        (λ a. bind-Sound s v _ _ (query_lambda-Sound _) (λ b. pure-Sound s v true))

  amalgamate-Sound : (from to : String) → Sound s v (amalgamate from to)
  unfolding amalgamate
  amalgamate-Sound from to = if-Sound s v (str_eq from to) _ _ (pure-Sound s v false) (
      bind-Sound s v _ _ (query_lambda-Sound _) (λ a.
        bind-Sound s v _ _ (query_lambda-Sound _) (λ b.
          bind-Sound s v _ _ (update_lambda-Sound _ _)
            (λ c. bind-Sound s v _ _ (update_lambda-Sound _ _) (λ d. pure-Sound s v true)))))

  -- A query, a test, and an update.
  tested-Sound :
      (key : String) (refuses : String → Bool) (n : String → ℕ)
      → Sound s v (
          query_lambda key >>= (λ text.
            if refuses text then pure false else update_lambda key (n text) >>= (λ u. pure true)))
  tested-Sound key refuses n = bind-Sound s v _ _ (query_lambda-Sound _) (λ a.
      if-Sound s v (refuses a) _ _ (pure-Sound s v false)
        (bind-Sound s v _ _ (update_lambda-Sound _ _) (λ b. pure-Sound s v true)))

  update_balance-Sound : (from val : String) → Sound s v (update_balance from val)
  unfolding update_balance
  update_balance-Sound from val = tested-Sound _ _ _

  update_saving-Sound : (from val : String) → Sound s v (update_saving from val)
  unfolding update_saving
  update_saving-Sound from val = tested-Sound _ _ _

  write_check-Sound : (from amount : String) → Sound s v (write_check from amount)
  unfolding write_check
  write_check-Sound from amount = tested-Sound _ _ _

  send_payment-Sound : (from to amount : String) → Sound s v (send_payment from to amount)
  unfolding send_payment
  send_payment-Sound from to amount = if-Sound s v (str_eq from to) _ _ (pure-Sound s v false) (
      bind-Sound s v _ _ (query_lambda-Sound _) (λ a.
        bind-Sound s v _ _ (query_lambda-Sound _) (λ b. if-Sound s v _ _ _ (pure-Sound s v false) (
          bind-Sound s v _ _ (update_lambda-Sound _ _)
            (λ c. bind-Sound s v _ _ (update_lambda-Sound _ _) (λ d. pure-Sound s v true))))))

  create_accounts-Sound :
      (name : String → String) (n i seed : ℕ) → Sound s v (create_accounts name n i seed)
  unfolding create_accounts
  create_accounts-Sound name zero i seed = pure-Sound s v seed
  create_accounts-Sound name (suc n) i seed = bind-Sound s v _ _ (new_insert-Sound s v _) (λ ins.
      bind-Sound s v _ _ (set-Sound s v _ _ _) (λ a.
        bind-Sound s v _ _ (set-Sound s v _ _ _) (λ b. create_accounts-Sound name n (suc i) _)))

  init_func-Sound : Sound s v init_func
  unfolding init_func
  init_func-Sound =
      bind-Sound s v _ _ (create_accounts-Sound checking 10000 0 initial_seed) (λ seed.
        bind-Sound s v _ _ (create_accounts-Sound saving 10000 0 seed) (λ b. pure-Sound s v true))

  pub arg-Sound : (args : List String) (i : ℕ) → Sound s v (arg args i)
  unfolding Sound
  arg-Sound [] i h h' a k e = cc
  arg-Sound (a ∷ args) zero h h' b k e = subst (IsSound s v) (ap (λ r. r.1) (some_inj e)) k
  arg-Sound (a ∷ args) (suc i) h h' b k e = arg-Sound args i h h' b k e

  -- Whatever chaincode is called, with whatever arguments.
  pub invoke_chaincode-Sound :
      (name : String) (args : List String) → Sound s v (invoke_chaincode name args)
  unfolding invoke_chaincode
  invoke_chaincode-Sound name args = if-Sound s v _ _ _ (two amalgamate amalgamate-Sound) (
      if-Sound s v _ _ _ (one query query-Sound) (
        if-Sound s v _ _ _ (two update_balance update_balance-Sound) (
          if-Sound s v _ _ _ (two update_saving update_saving-Sound) (
            if-Sound s v _ _ _ three (
              if-Sound s v _ _ _ (two write_check write_check-Sound)
                (if-Sound s v _ _ _ init_func-Sound (pure-Sound s v false)))))))
    where
      one :
          (f : String → Orm s Bool)
          → ((a : String) → Sound s v (f a))
          → Sound s v (arg args 0 >>= f)
      one f k = bind-Sound s v _ _ (arg-Sound args 0) k

      two :
          (f : String → String → Orm s Bool)
          → ((a b : String) → Sound s v (f a b))
          → Sound s v (arg args 0 >>= (λ a. arg args 1 >>= (λ b. f a b)))
      two f k =
          bind-Sound s v _ _ (arg-Sound args 0)
            (λ a. bind-Sound s v _ _ (arg-Sound args 1) (λ b. k a b))

      three :
          Sound s v
            (arg args 0 >>= (λ a. arg args 1 >>= (λ b. arg args 2 >>= (λ c. send_payment a b c))))
      three = bind-Sound s v _ _ (arg-Sound args 0) (λ a.
          bind-Sound s v _ _ (arg-Sound args 1)
            (λ b. bind-Sound s v _ _ (arg-Sound args 2) (λ c. send_payment-Sound a b c)))
