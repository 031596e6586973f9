-- ===== src/SmallBank/Deposit.antt =====
-- What the chaincodes of one account, `updateBalance`, `updateSaving` and `writeCheck`, do to its
-- balance.
use neu_chain.Prelude.{
  ℕ, ◌+◌, ◌^◌, ◌<◌, ◌≡◌, ◌≢◌, refl, sym, ap, ◌∙◌, subst, ◌⊎◌, inl, inr, Bool, true, false, ◌&&◌,
  some, [], String, if◌then◌else◌, Key, update, Bool-cases, Key-cases, some_inj, arith,
}
use neu_chain.Int32.{add_int, sub_int, negate_int, lt_int, is_negative, to_string, strtol}
use neu_chain.Int32.RoundTrip.{strtol-lt}
use neu_chain.Storage.{DbStorage}
use neu_chain.Serial.{View, apply_writes}
use neu_chain.Orm.{Helper, Orm, pure, ◌>>=◌}
use neu_chain.SmallBank.{
  saving, checking, update_balance, update_saving, write_check, query_lambda, update_lambda,
}
use neu_chain.SmallBank.Balance.{bank_key, balance, balance-update}
use neu_chain.SmallBank.Sound.{stored, after_query}
use neu_chain.SmallBank.Runs.{after_update, bind-run, query_lambda-at, update_lambda-run}
use neu_chain.SmallBank.Transfer.{begin, initial_view, committed_view}

-- One account has a new balance, and nothing else changes.
pub record Changed (a : String) (n : ℕ) (v w : View) : Type 0 where
  pub now : balance w a ≡ n
  pub others : (k : Key) → (k ≡ bank_key a) ⊎ (w k ≡ v k)

Changed-update :
    (a : String) (n : ℕ) (v : View)
    → n < 2 ^ 32
    → Changed a n v (update v (bank_key a) (to_string n))
Changed-update a n v small = record {
  now = balance-update v a n small;
  others = λ k. elim (Key-cases (bank_key a) k) [ inl e ↦ inl (sym e) | inr p ↦ inr (rw p refl) ];
}

module _ (s : DbStorage) (tid : ℕ) (st : s.State) where
  -- A run that refuses writes nothing; one that does not gives the account a new balance.
  abbrev pub RefusesOrChanges : Orm s Bool → Bool → String → ℕ → Helper s → Type 0
  RefusesOrChanges m refuses a n h =
      ((refuses ≡ true) × (m (begin s tid st) ≡ some (false, h)) × (h.rw_set.writes ≡ []))
      ⊎ ((refuses ≡ false)
          × (m (begin s tid st) ≡ some (true, h))
          × Changed a n (initial_view s tid st) (committed_view s tid st h))

  tested-Changed :
      (a : String) (refuses : String → Bool) (n : String → ℕ)
      → n (stored (initial_view s tid st) a) < 2 ^ 32
      → (h : Helper s) × RefusesOrChanges
          (query_lambda a >>= (λ text.
            if refuses text then pure false else update_lambda a (n text) >>= (λ u. pure true)))
          (refuses (stored (initial_view s tid st) a))
          a
          (n (stored (initial_view s tid st) a))
          h
  unfolding apply_writes
  tested-Changed a refuses n small =
      let text = stored (initial_view s tid st) a in
      let asked = after_query a (begin s tid st) in
      let first =
        bind-run (query_lambda a)
          (λ t. if refuses t then pure false else update_lambda a (n t) >>= (λ u. pure true))
          (begin s tid st) (query_lambda-at (initial_view s tid st) a (begin s tid st) refl) in
      elim (Bool-cases (refuses text)) [
        | inl q ↦ (asked, inl (q, first ∙ rw q refl, refl))
        | inr q ↦ (
          after_update a (n text) asked,
          inr (
            q,
            first
                ∙ rw q (
                    bind-run (update_lambda a (n text)) _ asked
                      (update_lambda-run a (n text) asked refl refl)),
            Changed-update a (n text) (initial_view s tid st) small,
          ),
        )
      ]

  -- `updateBalance` and `updateSaving` for a transaction with an empty set that may write. Each
  -- refuses just if the amount is negative and the balance of its account is less than what it
  -- takes, and then writes nothing; otherwise the amount is added, and nothing else changes.
  pub update_balance-Changed :
      (from val : String)
      → let amount = strtol val in
        let refuses = λ (b : ℕ). is_negative amount && lt_int b (negate_int amount) in
        let b = balance (initial_view s tid st) (checking from) in
        let c = balance (initial_view s tid st) (saving from) in
        ((h : Helper s) × RefusesOrChanges
            (update_balance from val)
            (refuses b)
            (checking from)
            (add_int b amount)
            h)
        × ((h : Helper s) × RefusesOrChanges
              (update_saving from val)
              (refuses c)
              (saving from)
              (add_int amount c)
              h)
  unfolding update_balance update_saving
  update_balance-Changed from val = (
    tested-Changed (checking from)
        (λ t. is_negative (strtol val) && lt_int (strtol t) (negate_int (strtol val)))
        (λ t. add_int (strtol t) (strtol val)) (omega arith),
    tested-Changed (saving from)
        (λ t. is_negative (strtol val) && lt_int (strtol t) (negate_int (strtol val)))
        (λ t. add_int (strtol val) (strtol t)) (omega arith),
  )

  -- `writeCheck` for a transaction with an empty set that may write. It refuses just if the
  -- balance less the amount would be negative, and then writes nothing; otherwise that is the new
  -- balance of the checking account, and nothing else changes.
  pub write_check-Changed :
      (from amount : String)
      → let n = sub_int (balance (initial_view s tid st) (checking from)) (strtol amount) in
        (h : Helper s) × RefusesOrChanges
          (write_check from amount)
          (is_negative n)
          (checking from)
          n
          h
  unfolding write_check
  write_check-Changed from amount =
      tested-Changed (checking from) (λ t. is_negative (sub_int (strtol t) (strtol amount)))
        (λ t. sub_int (strtol t) (strtol amount)) (omega arith)

module _ (s : DbStorage) (tid : ℕ) (st : s.State) where
  guard_lem :
      (b amount : ℕ)
      → is_negative b ≡ false
      → amount ≢ 2 ^ 31
      → amount < 2 ^ 32
      → (b + amount < 2 ^ 31) ⊎ (is_negative amount ≡ true)
      → (is_negative amount && lt_int b (negate_int amount)) ≡ false
      → is_negative (add_int b amount) ≡ false
  guard_lem b amount p q r t u = ground arith

  -- A checking account that is not negative does not become so by an `updateBalance` that is let
  -- through, if the sum is below 2 ^ 31 or the amount negative, and the amount is not the least
  -- `int`, whose opposite is no `int`.
  pub update_balance-solvent :
      (from val : String) (h : Helper s)
      → is_negative (balance (initial_view s tid st) (checking from)) ≡ false
      → strtol val ≢ 2 ^ 31
      → (balance (initial_view s tid st) (checking from) + strtol val < 2 ^ 31)
        ⊎ (is_negative (strtol val) ≡ true)
      → update_balance from val (begin s tid st) ≡ some (true, h)
      → is_negative (balance (committed_view s tid st h) (checking from)) ≡ false
  update_balance-solvent from val h p q r run =
      by_outcome (update_balance-Changed s tid st from val).0
    where
      b : ℕ
      b = balance (initial_view s tid st) (checking from)

      amount : ℕ
      amount = strtol val

      by_outcome :
          ((h' : Helper s) × RefusesOrChanges s tid st
              (update_balance from val)
              (is_negative amount && lt_int b (negate_int amount))
              (checking from)
              (add_int b amount)
              h')
          → is_negative (balance (committed_view s tid st h) (checking from)) ≡ false
      by_outcome (h', inl (e, run', w)) =
          absurd (differ (ap (λ r. r.0) (some_inj (sym run' ∙ run))))
        where
          differ : ¬ (false ≡ true)
          differ e = cc
      by_outcome (h', inr (e, run', c)) =
          subst (λ g. is_negative (balance (committed_view s tid st g) (checking from)) ≡ false)
            (ap (λ r. r.1) (some_inj (sym run' ∙ run)))
            (ap is_negative c.now ∙ guard_lem b amount p q (strtol-lt val) r e)
