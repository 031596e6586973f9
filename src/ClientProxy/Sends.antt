-- ===== src/ClientProxy/Sends.antt =====
-- What a proxy sends for one batch is what another proxy makes of it.
use neu_chain.Prelude.{
  ℕ, ◌^◌, ◌≡◌, ◌<◌, refl, sym, ap, ◌∙◌, subst, true, ◌&&◌, none, some, List, [], ◌∷◌, ◌++◌, map,
  ◌==◌, ==_iff, length, All, passed, bind-eq-some, some_inj, if_true,
}
use neu_chain.Transaction.{Transaction, new_transaction}
use neu_chain.Transaction.Wire.{
  Bytes, Decoding, failed, dead, unnamed, reads_on, serialize_to_string, body,
}
use neu_chain.Transaction.Wire.RoundTrip.{deserialize_from_string-serialize_to_string}
use neu_chain.ClientProxy.{Network, with_id}
use neu_chain.ClientProxy.Local.{send_transactions}
use neu_chain.ClientProxy.Remote.{
  make_transaction, payload_signed, check_worker, make_transactions, checked_transactions,
  all_of_epoch, evens, odds,
}
use neu_chain.ClientProxy.Proofs.{evens-All, odds-All}

module _ (w : Network) where
  open w use {coding}

  -- A transaction that its user has signed, in the bounds of the format.
  abbrev pub Signed : Transaction → Type 0
  Signed t =
      (t.tid < 2 ^ 64)
      × (t.epoch < 2 ^ 64)
      × (length (coding.serialize_payload t.payload) < 2 ^ 31)
      × (length (coding.serialize_rw_set t.rw_set) < 2 ^ 31)
      × (payload_signed w t ≡ true)

  -- Bytes that a worker lets pass.
  abbrev Good : Bytes → Type 0
  Good raw = (t : Transaction) × (make_transaction w raw ≡ some t) × (payload_signed w t ≡ true)

  make_transaction-sent :
      (t : Transaction) (raw : Bytes)
      → Signed t
      → serialize_to_string coding t ≡ some raw
      → make_transaction w raw ≡ some t
  unfolding make_transaction
  make_transaction-sent t raw (tid, epoch, payload, rw_set, _) e =
      ap
        (λ (d : Decoding). elim d [
          | failed t ↦ none
          | dead ↦ none
          | unnamed n t ↦ none
          | reads_on b t ↦ some t
        ])
        (deserialize_from_string-serialize_to_string coding t new_transaction raw tid epoch payload
          rw_set e)

  abbrev Sent : ℕ → Bytes → List Transaction → List Bytes → List Transaction → Type 0
  Sent epoch signature ts raws out =
      (make_transactions w raws ≡ some ts)
      × All Good raws
      × (all_of_epoch w epoch ts ≡ true)
      × (out ≡ map (with_id w signature) ts)

  pub send_transactions-Sent :
      (epoch : ℕ) (signature : Bytes) (ts : List Transaction) (raws : List Bytes)
      (out : List Transaction)
      → All Signed ts
      → send_transactions w epoch signature ts ≡ some (raws, out)
      → Sent epoch signature ts raws out
  unfolding send_transactions make_transactions all_of_epoch
  send_transactions-Sent epoch signature [] raws out h e =
      subst (λ p. Sent epoch signature [] p.0 p.1) (some_inj e) (refl, tt, refl, refl)
  send_transactions-Sent epoch signature (t ∷ ts) raws out h e =
      let (same, e1) = passed (epoch == t.epoch) e in
      let (raw, written, e2) = bind-eq-some (serialize_to_string coding t) _ e1 in
      let ((raws', out'), sent, e3) = bind-eq-some (send_transactions w epoch signature ts) _ e2 in
      let (made, good, of_epoch, ids) =
        send_transactions-Sent epoch signature ts raws' out' h.1 sent in
      let (_, _, _, _, signed) = h.0 in
      let back = make_transaction-sent t raw h.0 written in
      subst (λ p. Sent epoch signature (t ∷ ts) p.0 p.1) (some_inj e3)
        (
          rw (make_transactions, back) (rw made refl),
          ((t, back, signed), good),
          ap (λ b. b && all_of_epoch w epoch ts)
                ((==_iff t.epoch epoch).1 (sym ((==_iff epoch t.epoch).0 same)))
              ∙ of_epoch,
          ap (λ l. with_id w signature t ∷ l) ids,
        )

  check_worker-Good : (l : List Bytes) → All Good l → check_worker w l ≡ some true
  unfolding check_worker
  check_worker-Good [] h = refl
  check_worker-Good (raw ∷ l) ((t, made, signed), good) =
      rw (check_worker, made) (if_true (payload_signed w t) _ _ signed ∙ check_worker-Good l good)

  -- The other proxy makes the same transactions of what has been sent.
  pub checked_transactions-Sent :
      (epoch : ℕ) (signature : Bytes) (ts : List Transaction) (raws : List Bytes)
      (out : List Transaction)
      → Sent epoch signature ts raws out
      → checked_transactions w raws ≡ some (some ts)
  unfolding checked_transactions
  checked_transactions-Sent epoch signature ts raws out (made, good, _, _) =
      rw (checked_transactions, check_worker-Good (evens raws) (evens-All Good raws good))
        (rw (check_worker-Good (odds raws) (odds-All Good raws good)) (rw made refl))

  -- Nothing stops the proxy at the transactions of its epoch, if the hash function has not failed.
  pub send_transactions-total :
      ((b : Bytes) → (d : Bytes) × (coding.hash b ≡ some d))
      → (epoch : ℕ) (signature : Bytes) (ts : List Transaction) → All (λ t. epoch ≡ t.epoch) ts
      → (o : List Bytes × List Transaction) × (send_transactions w epoch signature ts ≡ some o)
  unfolding send_transactions
  send_transactions-total hashes epoch signature [] h = (([], []), refl)
  send_transactions-total hashes epoch signature (t ∷ ts) h =
      let (d, hashed) = hashes (body coding t) in
      let ((raws, out), sent) = send_transactions-total hashes epoch signature ts h.1 in
      (
        ((body coding t ++ d) ∷ raws, with_id w signature t ∷ out),
        if_true (epoch == t.epoch) _ _ ((==_iff epoch t.epoch).1 h.0) ∙ rw hashed (rw sent refl),
      )
