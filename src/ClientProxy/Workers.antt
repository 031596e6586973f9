-- ===== src/ClientProxy/Workers.antt =====
-- What the workers of a remote proxy let pass.
use neu_chain.Prelude.{
  ℕ, ◌≡◌, sym, ap, ◌∙◌, subst, inl, inr, true, false, ◌&&◌, none, some, List, [], ◌∷◌, ◌==◌, ==_iff,
  Bool-cases, All, bind-eq-some, some_inj, if_true, if_false, &&_parts,
}
use neu_chain.Transaction.{Transaction}
use neu_chain.Transaction.Wire.{Bytes}
use neu_chain.ClientProxy.{Network}
use neu_chain.ClientProxy.Remote.{
  make_transaction, make_transactions, payload_signed, check_worker, checked_transactions,
  all_of_epoch, evens, odds,
}
use neu_chain.ClientProxy.Proofs.{both-All}

module _ (w : Network) where
  check_worker-signed :
      (l : List Bytes)
      → check_worker w l ≡ some true
      → All
          (λ raw. (t : Transaction) → make_transaction w raw ≡ some t → payload_signed w t ≡ true)
          l
  unfolding check_worker
  check_worker-signed [] h = tt
  check_worker-signed (raw ∷ l) h =
      let (t, made, e) = bind-eq-some (make_transaction w raw) _ h in
      elim (Bool-cases (payload_signed w t)) [
        | inl signed ↦ (
          λ u again. subst (λ x. payload_signed w x ≡ true) (some_inj (sym made ∙ again)) signed,
          check_worker-signed l (sym (if_true (payload_signed w t) _ _ signed) ∙ e),
        )
        | inr bad ↦ absurd (bad_worker (sym (if_false (payload_signed w t) _ _ bad) ∙ e))
      ]
    where
      bad_worker : ¬ (some false ≡ some true)
      bad_worker p = cc

  make_transactions-signed :
      (l : List Bytes) (ts : List Transaction)
      → All
          (λ raw. (t : Transaction) → make_transaction w raw ≡ some t → payload_signed w t ≡ true)
          l
      → make_transactions w l ≡ some ts
      → All (λ t. payload_signed w t ≡ true) ts
  unfolding make_transactions
  make_transactions-signed [] ts h e = subst (All (λ t. payload_signed w t ≡ true)) (some_inj e) tt
  make_transactions-signed (raw ∷ l) ts h e =
      let (t, made, e1) = bind-eq-some (make_transaction w raw) _ e in
      let (rest, made', e2) = bind-eq-some (make_transactions w l) _ e1 in
      subst (All (λ t. payload_signed w t ≡ true)) (some_inj e2)
        (h.0 t made, make_transactions-signed l rest h.1 made')

  pub checked_transactions-signed :
      (raws : List Bytes) (ts : List Transaction)
      → checked_transactions w raws ≡ some (some ts)
      → All (λ t. payload_signed w t ≡ true) ts
  unfolding checked_transactions
  checked_transactions-signed raws ts e =
      let (a, even, e1) = bind-eq-some (check_worker w (evens raws)) _ e in
      let (b, odd, e2) = bind-eq-some (check_worker w (odds raws)) _ e1 in
      elim (Bool-cases (a && b)) [
        | inl both ↦
            let (p, q) = &&_parts a b both in
            let (made, m, e3) =
              bind-eq-some (make_transactions w raws) _ (sym (if_true (a && b) _ _ both) ∙ e2) in
            make_transactions-signed raws ts
              (both-All _ raws (check_worker-signed (evens raws) (even ∙ ap some p))
                (check_worker-signed (odds raws) (odd ∙ ap some q)))
              (m ∙ ap some (some_inj (some_inj e3)))
        | inr bad ↦ absurd (no_list (sym (if_false (a && b) _ _ bad) ∙ e2))
      ]
    where
      no_list : ¬ (some none ≡ some (some ts))
      no_list p = cc

  pub all_of_epoch-All :
      (e : ℕ) (ts : List Transaction) → all_of_epoch w e ts ≡ true → All (λ t. t.epoch ≡ e) ts
  unfolding all_of_epoch
  all_of_epoch-All e [] h = tt
  all_of_epoch-All e (t ∷ ts) h =
      let (p, q) = &&_parts (t.epoch == e) (all_of_epoch w e ts) h in
      ((==_iff t.epoch e).0 p, all_of_epoch-All e ts q)
