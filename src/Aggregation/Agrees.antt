-- ===== src/Aggregation/Agrees.antt =====
-- Every server of a cluster gets for the transactions of the others what these have found.
use neu_chain.Prelude.{
  ℕ, ◌≡◌, ◌≢◌, refl, sym, ap, ◌∙◌, subst, inl, inr, false, Option, none, some, List, [], ◌∷◌, ◌++◌,
  map, ◌==◌, ==_iff, if◌then◌else◌, Bool-cases, All, if_true, if_false, arith,
}
use neu_chain.HashMap.{find, put}
use neu_chain.HashMap.Refines.{find-put}
use neu_chain.RwSet.{KvRwSet}
use neu_chain.Transaction.{Transaction, TransactionResult, commit, pending, abort, abort_no_retry}
use neu_chain.Transaction.Wire.{Coding, result_number, number_result}
use neu_chain.Consensus.{set_at}
use neu_chain.Aggregation.Broadcaster.{
  Broadcaster, node_of, exchange_of, receive_node, receive_nodes, receive_exchanges, Aggregated,
  aggregate_transaction,
}
use neu_chain.Aggregation.Entries.{
  Entries, DistinctKeys, taken, flat, find_missing, split_keys, taken-append,
}

number_result-number : (r : TransactionResult) → number_result (result_number r) ≡ some r
number_result-number commit = refl
number_result-number pending = refl
number_result-number abort = refl
number_result-number abort_no_retry = refl

-- A transaction waits for each of the entries, under its own id.
abbrev pub Awaited : Entries → Entries → Type 0
Awaited waiting =
    All (λ (x : ℕ × Transaction).
      (u : Transaction) × (find ◌==◌ x.0 waiting ≡ some u) × (u.tid ≡ x.0))

abbrev pub calls_for : Entries → List (ℕ × KvRwSet)
calls_for = map (λ (x : ℕ × Transaction). (x.0, x.1.rw_set))

module _ (c : Coding) where
  record Takes (m waiting : Entries) (o : Option (Entries × List (ℕ × KvRwSet))) : Type 0 where
    left : Entries
    runs : o ≡ some (left, calls_for m)
    all : (k : ℕ) → find ◌==◌ k left ≡ taken (find ◌==◌ k m) (find ◌==◌ k waiting)

  abbrev given : Transaction → Transaction → Transaction
  given t u = record u { result = t.result; rw_set = t.rw_set }

  receive_node-Awaited :
      (k : ℕ) (t u : Transaction) (waiting : Entries)
      → find ◌==◌ k waiting ≡ some u
      → u.tid ≡ k
      → receive_node c (node_of c (k, t)) waiting
        ≡ some (put ◌==◌ k (given t u) waiting, (k, t.rw_set))
  unfolding receive_node
  receive_node-Awaited k t u waiting e same =
      rw (receive_node, e)
        (rw (number_result-number t.result) (
          rw (c.parse_rw_set-serialize t.rw_set)
            (ap (λ n. some (put ◌==◌ k (given t u) waiting, (n, t.rw_set))) same)))

  Awaited-put :
      (k : ℕ) (v : Transaction) (waiting m : Entries)
      → v.tid ≡ k
      → Awaited waiting m
      → Awaited (put ◌==◌ k v waiting) m
  Awaited-put k v waiting [] same h = tt
  Awaited-put k v waiting ((j, t) ∷ m) same h =
      let (u, e, at) = h.0 in
      (
        elim (Bool-cases (k == j)) [
          | inl p ↦ (
            v,
            find-put ◌==◌ ==_iff k j v waiting ∙ if_true (k == j) _ _ p,
            same ∙ (==_iff k j).0 p,
          )
          | inr p ↦ (u, find-put ◌==◌ ==_iff k j v waiting ∙ if_false (k == j) _ _ p ∙ e, at)
        ],
        Awaited-put k v waiting m same h.1,
      )

  receive_nodes-Takes :
      (m waiting : Entries)
      → DistinctKeys m
      → Awaited waiting m
      → Takes m waiting (receive_nodes c (map (node_of c) m) waiting)
  unfolding receive_nodes find
  receive_nodes-Takes [] waiting d h = record { left = waiting; runs = refl; all = λ k. refl }
  receive_nodes-Takes ((k, t) ∷ m) waiting d h =
      let (u, e, same) = h.0 in
      let next = put ◌==◌ k (given t u) waiting in
      let rest = receive_nodes-Takes m next d.1 (Awaited-put k (given t u) waiting m same h.1) in
      record {
        left = rest.left;
        runs = rw (receive_nodes, receive_node-Awaited k t u waiting e same) (rw rest.runs refl);
        all = λ j.
            rest.all j
            ∙ ap (taken (find ◌==◌ j m)) (find-put ◌==◌ ==_iff k j (given t u) waiting)
            ∙ elim (Bool-cases (k == j)) [
              | inl p ↦
                  ap (λ o. taken o (if k == j then some (given t u) else find ◌==◌ j waiting))
                    (find_missing j m (
                      subst (λ i. All (λ (y : ℕ × Transaction). i ≢ y.0) m) ((==_iff k j).0 p) d.0))
                  ∙ if_true (k == j) _ _ p
                  ∙ sym (
                      ap (λ o. taken o (find ◌==◌ j waiting)) (if_true (k == j) _ _ p)
                      ∙ ap (taken (some t))
                          (subst (λ i. find ◌==◌ i waiting ≡ some u) ((==_iff k j).0 p) e))
              | inr p ↦
                  ap (taken (find ◌==◌ j m)) (if_false (k == j) _ _ p)
                  ∙ ap (λ o. taken o (find ◌==◌ j waiting)) (sym (if_false (k == j) _ _ p))
            ];
      }

  Awaited-taken :
      (waiting left m l : Entries)
      → ((k : ℕ) → find ◌==◌ k left ≡ taken (find ◌==◌ k m) (find ◌==◌ k waiting))
      → Awaited waiting l
      → Awaited left l
  Awaited-taken waiting left m [] f h = tt
  Awaited-taken waiting left m ((j, t) ∷ l) f h =
      let (u, e, same) = h.0 in
      (
        one (find ◌==◌ j m) u (f j ∙ ap (taken (find ◌==◌ j m)) e) same,
        Awaited-taken waiting left m l f h.1,
      )
    where
      one :
          (o : Option Transaction) (u : Transaction)
          → find ◌==◌ j left ≡ taken o (some u)
          → u.tid ≡ j
          → (v : Transaction) × (find ◌==◌ j left ≡ some v) × (v.tid ≡ j)
      one none u e same = (u, e, same)
      one (some t) u e same = (given t u, e, same)

  Awaited-parts :
      (waiting a b : Entries) → Awaited waiting (a ++ b) → Awaited waiting a × Awaited waiting b
  Awaited-parts waiting [] b h = (tt, h)
  Awaited-parts waiting (x ∷ a) b h = let (p, q) = Awaited-parts waiting a b h.1 in ((h.0, p), q)

  calls_for-append : (a b : Entries) → calls_for (a ++ b) ≡ calls_for a ++ calls_for b
  calls_for-append [] b = refl
  calls_for-append (x ∷ a) b = ap (λ l. (x.0, x.1.rw_set) ∷ l) (calls_for-append a b)

  receive_exchanges-Takes :
      (epoch : ℕ) (ms : List Entries) (waiting : Entries)
      → DistinctKeys (flat ms)
      → Awaited waiting (flat ms)
      → Takes (flat ms) waiting (receive_exchanges c epoch (map (exchange_of c epoch) ms) waiting)
  unfolding receive_exchanges find
  receive_exchanges-Takes epoch [] waiting d h = record {
    left = waiting;
    runs = refl;
    all = λ k. refl;
  }
  receive_exchanges-Takes epoch (m ∷ ms) waiting d h =
      let (dm, drest, cross) = split_keys m (flat ms) d in
      let (hm, hrest) = Awaited-parts waiting m (flat ms) h in
      let first = receive_nodes-Takes m waiting dm hm in
      let rest =
        receive_exchanges-Takes epoch ms first.left drest
          (Awaited-taken waiting first.left m (flat ms) first.all hrest) in
      record {
        left = rest.left;
        runs =
            if_true (epoch == epoch) _ _ ((==_iff epoch epoch).1 refl)
            ∙ rw first.runs
                (rw rest.runs (ap (λ l. some (rest.left, l)) (sym (calls_for-append m (flat ms)))));
        all = λ k.
            rest.all k
            ∙ ap (taken (find ◌==◌ k (flat ms))) (first.all k)
            ∙ taken-append k m (flat ms) (find ◌==◌ k waiting) cross;
      }

  -- After the exchange of an epoch that has not been aggregated, a server has for every transaction
  -- that another runs what its owner has found. Take the messages of the other servers of the
  -- cluster, made of what they run, with different ids, each waiting here under its id. Then no
  -- check fails; each of these transactions has the result and the set of its owner, and is else as
  -- it was; all others are as they were; the sets have been buffered in the storage in the order of
  -- the messages, and what this server runs has been sent.
  pub aggregate_transaction-Takes :
      (epoch : ℕ) (ms : List Entries) (b : Broadcaster)
      → ¬ (b.broadcast_epoch ≡ epoch)
      → DistinctKeys (flat ms)
      → Awaited (b.listen epoch) (flat ms)
      → (a : Aggregated c) × (aggregate_transaction c epoch (map (exchange_of c epoch) ms) b
          ≡ some (some a))
        × ((k : ℕ)
            → find ◌==◌ k a.received ≡ taken (find ◌==◌ k (flat ms)) (find ◌==◌ k (b.listen epoch)))
        × (a.buffered ≡ calls_for (flat ms))
        × (a.sent ≡ exchange_of c epoch (b.broadcast epoch))
        × (a.after.broadcast_epoch ≡ epoch)
  unfolding aggregate_transaction
  aggregate_transaction-Takes epoch ms b new d h =
      let out = receive_exchanges-Takes epoch ms (b.listen epoch) d h in
      (
        record {
          after = record b {
            broadcast_epoch = epoch;
            listen = set_at epoch [] b.listen;
            broadcast = set_at epoch [] b.broadcast;
          };
          sent = exchange_of c epoch (b.broadcast epoch);
          received = out.left;
          buffered = calls_for (flat ms);
        },
        if_false (b.broadcast_epoch == epoch) _ _ (not_yet b.broadcast_epoch epoch new)
            ∙ rw out.runs refl,
        out.all,
        refl,
        refl,
        refl,
      )
    where
      not_yet : (a e : ℕ) → ¬ (a ≡ e) → (a == e) ≡ false
      not_yet a e h = ground arith
