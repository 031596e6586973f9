-- ===== src/SmallBank/Transfer.antt =====
-- What the chaincodes of two accounts, `sendPayment` and `amalgamate`, do to the balances.
use neu_chain.Prelude.{
  ℕ, ◌^◌, ◌<◌, ◌≡◌, ◌≢◌, refl, sym, ap, ◌∙◌, subst, ◌⊎◌, inl, inr, Bool, true, false, ◌||◌, some,
  [], String, str_eq, Key, update, Bool-cases, Key-cases, str_eq_ne, ne_of_str_eq, arith,
}
use neu_chain.RwSet.{empty_rw_set}
use neu_chain.Int32.{add_int, sub_int, is_negative, to_string, strtol}
use neu_chain.Int32.RoundTrip.{strtol-lt}
use neu_chain.Storage.{DbStorage}
use neu_chain.Serial.{View, apply_writes}
use neu_chain.Orm.{Helper, new_helper, Orm, pure, ◌>>=◌, push, has_write}
use neu_chain.SmallBank.{saving, checking, send_payment, amalgamate, query_lambda, update_lambda}
use neu_chain.SmallBank.Balance.{
  bank_key, balance, balance-lt, balance-update, balance-update_other, checking-ne,
  saving-ne-checking,
}
use neu_chain.SmallBank.Sound.{stored, after_query}
use neu_chain.SmallBank.Runs.{
  after_update, bank_write, bind-run, query_lambda-at, update_lambda-run,
}

-- An amount has gone from one account to another: their sum stays, and nothing else changes.
pub record Moved (a b : String) (amount : ℕ) (v w : View) : Type 0 where
  pub taken : balance w a ≡ sub_int (balance v a) amount
  pub given : balance w b ≡ add_int (balance v b) amount
  pub total : add_int (balance w a) (balance w b) ≡ add_int (balance v a) (balance v b)
  pub others : (k : Key) → (k ≡ bank_key a) ⊎ ((k ≡ bank_key b) ⊎ (w k ≡ v k))

sub_int_self : (n : ℕ) → n < 2 ^ 32 → sub_int n n ≡ 0
sub_int_self n h = omega arith

sum_kept :
    (p q m x y : ℕ)
    → x ≡ sub_int p m
    → y ≡ add_int q m
    → p < 2 ^ 32
    → q < 2 ^ 32
    → m < 2 ^ 32
    → add_int x y ≡ add_int p q
sum_kept p q m x y hx hy hp hq hm = omega arith

Moved-updates :
    (a b : String) (amount : ℕ) (v : View)
    → a ≢ b
    → amount < 2 ^ 32
    → Moved a b amount v (
        update
          (update v (bank_key a) (to_string (sub_int (balance v a) amount)))
          (bank_key b)
          (to_string (add_int (balance v b) amount)))
Moved-updates a b amount v ne small =
    let x = sub_int (balance v a) amount in
    let y = add_int (balance v b) amount in
    let u = update v (bank_key a) (to_string x) in
    let taken =
      balance-update_other u b a (to_string y) (λ e. ne (sym e))
      ∙ balance-update v a x (omega arith) in
    let given = balance-update u b y (omega arith) in
    record {
      taken = taken;
      given = given;
      total = sum_kept _ _ amount _ _ taken given (balance-lt v a) (balance-lt v b) small;
      others = λ k. elim (Key-cases (bank_key a) k) [
        | inl e ↦ inl (sym e)
        | inr p ↦ elim (Key-cases (bank_key b) k) [
          | inl e ↦ inr (inl (sym e))
          | inr q ↦ inr (inr (rw (q) (rw (p) refl)))
        ]
      ];
    }

module _ (s : DbStorage) (tid : ℕ) (st : s.State) where
  -- The helper of a transaction that may write.
  abbrev pub begin : Helper s
  begin = new_helper tid false empty_rw_set st

  abbrev pub initial_view : View
  initial_view = s.view st

  -- The view that the writes of a run leave when they are committed.
  abbrev pub committed_view : Helper s → View
  committed_view h = apply_writes h.rw_set.writes initial_view

  -- A run that refuses writes nothing; one that does not moves an amount between two accounts.
  abbrev pub RefusesOrMoves : Orm s Bool → Bool → String → String → ℕ → Helper s → Type 0
  RefusesOrMoves m refuses a b amount h =
      ((refuses ≡ true) × (m begin ≡ some (false, h)) × (h.rw_set.writes ≡ []))
      ⊎ ((refuses ≡ false)
          × (m begin ≡ some (true, h))
          × Moved a b amount initial_view (committed_view h))

  -- The helper after two queries.
  abbrev asked : String → String → Helper s
  asked a b = after_query b (after_query a begin)

  asked_view : (a : String) → s.view (after_query a begin).storage ≡ initial_view
  asked_view a = s.select_db-view (bank_key a) st

  two_queries :
      (a b : String) (f : String → String → Orm s Bool)
      → (query_lambda a >>= (λ x. query_lambda b >>= (λ y. f x y))) begin
        ≡ f (stored initial_view a) (stored initial_view b) (asked a b)
  two_queries a b f =
      bind-run (query_lambda a) _ begin (query_lambda-at initial_view a begin refl)
      ∙ bind-run (query_lambda b) _ (after_query a begin)
          (query_lambda-at initial_view b _ (asked_view a))

  two_updates :
      (a b : String) (x y : ℕ) (h : Helper s)
      → a ≢ b
      → h.read_only ≡ false
      → h.rw_set.writes ≡ []
      → (update_lambda a x >>= (λ u. update_lambda b y >>= (λ w. pure true))) h
        ≡ some (true, after_update b y (after_update a x h))
  two_updates a b x y h ne may none_yet =
      bind-run (update_lambda a x) _ h (update_lambda-run a x h may (ap (has_write a) none_yet))
      ∙ bind-run (update_lambda b y) _ (after_update a x h) (
          update_lambda-run b y _ may (
            ap (λ ws. has_write b (push (bank_write a x) ws)) none_yet
            ∙ rw (str_eq_ne a b ne) refl))

  -- `sendPayment` for a transaction with an empty set that may write. It refuses just if the two
  -- accounts are the same, the amount is negative, or the payer's balance would be; then it writes
  -- nothing. Otherwise it moves the amount between the two checking accounts, and when its writes
  -- are committed the sum of the two, as an `int`, has not changed, and no other value has.
  pub send_payment-Moved :
      (from to amount : String)
      → (h : Helper s) × RefusesOrMoves
          (send_payment from to amount)
          (str_eq from to
            || (is_negative (sub_int (balance initial_view (checking from)) (strtol amount))
                || is_negative (strtol amount)))
          (checking from)
          (checking to)
          (strtol amount)
          h
  unfolding send_payment apply_writes
  send_payment-Moved from to amount = elim (Bool-cases (str_eq from to)) [
    | inl e ↦ (begin, inl (rw e refl, rw e refl, refl))
    | inr e ↦
        let a = checking from in
        let b = checking to in
        let m = strtol amount in
        let x = sub_int (balance initial_view a) m in
        let ne = checking-ne from to (ne_of_str_eq from to e) in
        elim (Bool-cases (is_negative x || is_negative m)) [
          | inl q ↦ (asked a b, inl (rw (e, q) refl, rw e (two_queries a b _ ∙ rw q refl), refl))
          | inr q ↦ (
            after_update b (add_int (balance initial_view b) m) (after_update a x (asked a b)),
            inr (
              rw (e, q) refl,
              rw e (two_queries a b _ ∙ rw q (two_updates a b x _ (asked a b) ne refl refl)),
              Moved-updates a b m initial_view ne (strtol-lt amount),
            ),
          )
        ]
  ]

  -- `amalgamate` for a transaction with an empty set that may write. It refuses just if the two
  -- accounts are the same, and then writes nothing. Otherwise it moves all savings of the one to
  -- the checking account of the other, and when its writes are committed the sum of the two, as an
  -- `int`, has not changed, and no other value has.
  pub amalgamate-Moved :
      (from to : String)
      → (h : Helper s) × RefusesOrMoves
          (amalgamate from to)
          (str_eq from to)
          (saving from)
          (checking to)
          (balance initial_view (saving from))
          h
  unfolding amalgamate apply_writes
  amalgamate-Moved from to = elim (Bool-cases (str_eq from to)) [
    | inl e ↦ (begin, inl (e, rw e refl, refl))
    | inr e ↦
        let a = saving from in
        let b = checking to in
        let m = balance initial_view a in
        let ne = saving-ne-checking from to in
        (
          after_update b (add_int (balance initial_view b) m) (after_update a 0 (asked a b)),
          inr (
            e,
            rw e (two_queries a b _ ∙ two_updates a b 0 _ (asked a b) ne refl refl),
            subst
                (λ n. Moved a b m initial_view (
                  update (update initial_view (bank_key a) (to_string n)) (bank_key b)
                    (to_string (add_int (balance initial_view b) m))))
                (sub_int_self m (balance-lt initial_view a))
                (Moved-updates a b m initial_view ne (balance-lt initial_view a)),
          ),
        )
  ]
