-- ===== src/QueryExecutor.antt =====
-- The executor for read-only transactions outside of epochs, `TransactionQueryExecutor::executeList`
-- (src/block_server/worker/impl/transaction_query_executor.cpp).
use neu_chain.Prelude.{
  ◌≡◌, refl, sym, ap, ◌∙◌, subst, Bool, true, false, Option, some, List, [], ◌∷◌, map,
  if◌then◌else◌, ◌⊎◌, inl, inr, All, In, All-map_lem, some_inj, bind-eq-some,
}
use neu_chain.RwSet.{empty_rw_set}
use neu_chain.Transaction.{Transaction, TransactionResult, pending, commit, abort_no_retry}
use neu_chain.Storage.{DbStorage}
use neu_chain.Serial.{View, ReadsFrom}
use neu_chain.Chaincode.{Chaincode, Run}
use neu_chain.Executor.{with_result, ◌>>=◌}

-- The branch that a test has taken.
elim_split :
    {A : Type 0} (b : Bool) {x y : Option A} {a : A}
    → elim b [ true ↦ x | false ↦ y ] ≡ some a
    → ((b ≡ true) × (x ≡ some a)) ⊎ ((b ≡ false) × (y ≡ some a))
elim_split true e = inl (refl, e)
elim_split false e = inr (refl, e)

-- A read-only transaction buffers no update when its chaincode is gone.
module _ {s : DbStorage} (c : Chaincode s) where
  -- What the loop has done: its result, the transactions, and the storage.
  abbrev pub Answers : Type 0
  Answers = Bool × List Transaction × s.State

  abbrev pub answered : Transaction → TransactionResult → Run s → Transaction
  answered t result r = record t { rw_set = r.rw_set; result = result }

  abbrev pub before : Transaction → Answers → Answers
  before u (ok, us, st) = (ok, u ∷ us, st)

  unfoldable pub execute_query_list : List Transaction → s.State → Option Answers
  execute_query_list [] st = some (true, [], st)
  execute_query_list (t ∷ ts) st = elim t.read_only [
    | false ↦ do a ← execute_query_list ts st; some (before (with_result t abort_no_retry) a)
    | true ↦ do
      r ← c.invoke t st
      elim r.succeeds [
        | true ↦ do a ← execute_query_list ts r.storage; some (before (answered t commit r) a)
        | false ↦ some (false, answered t abort_no_retry r ∷ ts, r.storage)
      ]
  ]

  -- The result that a transaction has when all have been run.
  abbrev pub IsAnswered : Transaction → Type 0
  IsAnswered u = u.result ≡ (if u.read_only then commit else abort_no_retry)

  -- A transaction without what an execution gives it.
  abbrev pub bare : Transaction → Transaction
  bare t = record t { rw_set = empty_rw_set; result = pending }

  abbrev pub IsFresh : Transaction → Type 0
  IsFresh t = t.rw_set ≡ empty_rw_set

  pub record Snapshot (v : View) (ts : List Transaction) (a : Answers) : Type 0 where
    pub same_view : s.view a.2 ≡ v
    pub reads : All (λ u. ReadsFrom v u.rw_set) a.1
    pub same : map bare a.1 ≡ map bare ts
    pub answers : a.0 ≡ true → All IsAnswered a.1
    pub fails :
        a.0 ≡ false
        → (u : Transaction) × In u a.1 × (u.read_only ≡ true) × (u.result ≡ abort_no_retry)

  fresh_reads :
      (v : View) (ts : List Transaction) → All IsFresh ts → All (λ u. ReadsFrom v u.rw_set) ts
  fresh_reads v ts f = All-map_lem IsFresh _ ts (λ t e. subst (ReadsFrom v) (sym e) tt) f

  before-Snapshot :
      (v : View) (t u : Transaction) (ts : List Transaction) (a : Answers)
      → bare u ≡ bare t
      → ReadsFrom v u.rw_set
      → IsAnswered u
      → Snapshot v ts a
      → Snapshot v (t ∷ ts) (before u a)
  before-Snapshot v t u ts a same reads answer i = record {
    same_view = i.same_view;
    reads = (reads, i.reads);
    same = ap (λ x. x ∷ map bare a.1) same ∙ ap (λ xs. bare t ∷ xs) i.same;
    answers = λ ok. (answer, i.answers ok);
    fails = λ bad. let (x, at, only, result) = i.fails bad in (x, inr at, only, result);
  }

  -- Queries see one state: when the executor has gone through transactions with empty sets, the
  -- values of the storage are what they were, every recorded read of any transaction is one of
  -- them, and the transactions are the same ones in the same order, with all of their fields
  -- but the set and the result. Where it returns true, a transaction is committed if it is read-only, and has an internal error otherwise. Where it
  -- returns false, a read-only one of them has an internal error.
  pub execute_query_list-Snapshot :
      (ts : List Transaction) (st : s.State) (a : Answers)
      → All IsFresh ts
      → execute_query_list ts st ≡ some a
      → Snapshot (s.view st) ts a
  unfolding execute_query_list
  execute_query_list-Snapshot [] st a f e =
      subst (Snapshot (s.view st) []) (some_inj e) (record {
        same_view = refl;
        reads = tt;
        same = refl;
        answers = λ ok. tt;
        fails = λ bad. cc;
      })
  execute_query_list-Snapshot (t ∷ ts) st a f e = elim (elim_split t.read_only e) [
    | inr (unset, taken) ↦
        let (b, rest, out) = bind-eq-some (execute_query_list ts st) _ taken in
        subst (Snapshot (s.view st) (t ∷ ts)) (some_inj out) (
          before-Snapshot (s.view st) t (with_result t abort_no_retry) ts b refl
            (fresh_reads (s.view st) (t ∷ []) (f.0, tt)).0
            (sym (ap (λ x. if x then commit else abort_no_retry) unset))
            (execute_query_list-Snapshot ts st b f.1 rest))
    | inl (set, taken) ↦
        let (r, run, out) = bind-eq-some (c.invoke t st) _ taken in
        let view = c.invoke-view t st r f.0 run in
        let reads = c.invoke-ReadsFrom t st r f.0 run in
        elim (elim_split r.succeeds out) [
          | inl (ok, went_on) ↦
              let (b, rest, done) = bind-eq-some (execute_query_list ts r.storage) _ went_on in
              subst (Snapshot (s.view st) (t ∷ ts)) (some_inj done) (
                before-Snapshot (s.view st) t (answered t commit r) ts b refl reads
                  (sym (ap (λ x. if x then commit else abort_no_retry) set))
                  (subst (λ v. Snapshot v ts b) view
                    (execute_query_list-Snapshot ts r.storage b f.1 rest)))
          | inr (bad, stopped) ↦ subst (Snapshot (s.view st) (t ∷ ts)) (some_inj stopped) (record {
            same_view = view;
            reads = (reads, fresh_reads (s.view st) ts f.1);
            same = refl;
            answers = λ ok. cc;
            fails = λ no_more. (answered t abort_no_retry r, inl refl, set, refl);
          })
        ]
  ]
