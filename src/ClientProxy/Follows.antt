-- ===== src/ClientProxy/Follows.antt =====
-- A remote proxy follows a local one: it accepts the next message, and is then where the other is.
use mathlib.Core.List.{append_assoc}
use neu_chain.Prelude.{
  ℕ, zero, suc, ◌+◌, ◌^◌, ◌≡◌, ◌≢◌, ◌<◌, refl, sym, ap, ◌∙◌, subst, inl, inr, true, some, List, [],
  ◌∷◌, ◌++◌, map, String, ◌==◌, ==_iff, length, length-append, All, All-of_In, In, In-append_split,
  Pairwise, if_true, arith,
}
use neu_chain.Transaction.{Transaction}
use neu_chain.Transaction.Wire.{Bytes}
use neu_chain.ClientProxy.{Network, BufferCall, push_transaction, async_empty, next_epoch, with_id}
use neu_chain.ClientProxy.Local.{
  LocalProxy, close_epochs, proof_set, transaction_set, send_transactions,
}
use neu_chain.ClientProxy.Remote.{
  RemoteProxy, goes_on, receive_remote, receive_proofs, receive_transactions, push_checked,
  run_remote, after_calls, verify_batch_hash, has_proofs, all_of_epoch,
}
use neu_chain.ClientProxy.Proofs.{insert_proof-new, has_proofs-all}
use neu_chain.ClientProxy.Sends.{Signed, send_transactions-Sent, checked_transactions-Sent}

abbrev pub Batch : Type 0
Batch = Bytes × List Transaction

module _ (w : Network) (ip : String) where
  open w use {coding, parse_response, serialize_set, parse_set-serialize}

  abbrev pub signature_of : Batch → Bytes
  signature_of b = (parse_response b.0).signature

  -- Messages that are all accepted, what they leave and what they call.
  pub data Passes : List Bytes → RemoteProxy → RemoteProxy → List BufferCall → Type 0 where
    done : {r : RemoteProxy} → Passes [] r r []
    step :
        {raw : Bytes} {l : List Bytes} {r r1 r2 : RemoteProxy} {k k' : List BufferCall}
        → receive_remote w raw r ≡ goes_on r1 k
        → Passes l r1 r2 k'
        → Passes (raw ∷ l) r r2 (k ++ k')

  pub Passes-append :
      {a b : List Bytes} {r r1 r2 : RemoteProxy} {k k' : List BufferCall}
      → Passes a r r1 k
      → Passes b r1 r2 k'
      → Passes (a ++ b) r r2 (k ++ k')
  Passes-append done q = q
  Passes-append {b = b} {r2 = r2} {k' = k'}
        (step {raw = raw} {l = l} {r = r} {k = k0} {k' = k1} e p) q =
      subst (Passes (raw ∷ (l ++ b)) r r2) (sym (append_assoc k0 k1 k'))
        (step e (Passes-append p q))

  pub Passes-run :
      {l : List Bytes} {r r' : RemoteProxy} {k : List BufferCall}
      → Passes l r r' k
      → run_remote w l r ≡ goes_on r' k
  unfolding run_remote
  Passes-run done = refl
  Passes-run (step {k = k} e p) = rw (run_remote, e) (ap (after_calls k) (Passes-run p))

  -- The remote proxy is where the local one is, and has not seen the batches that are to come.
  pub record Follows (bs : List Batch) (s : LocalProxy) (r : RemoteProxy) : Type 0 where
    pub same_epoch : r.epoch ≡ s.epoch
    pub has : (x : Bytes) → In x s.proof_data → In x r.current_epoch_proof_set
    pub size : length s.proof_data ≡ length r.current_epoch_proof_set
    pub new : All (λ b. ¬ In (signature_of b) r.current_epoch_proof_set) bs

  pub all_new : (bs : List Batch) → All (λ b. ¬ In (signature_of b) []) bs
  all_new bs = All-of_In (λ b. ¬ In (signature_of b) []) bs (λ b i at. at)

  receive_proofs-Follows :
      (bs : List Batch) (s : LocalProxy) (r : RemoteProxy)
      → Follows bs s r
      → receive_remote w (serialize_set (proof_set w ip s)) r
        ≡ goes_on
            (record { epoch = next_epoch s.epoch; current_epoch_proof_set = [] })
            (async_empty s.epoch ∷ [])
  unfolding receive_remote receive_proofs
  receive_proofs-Follows bs s r f =
      rw (receive_remote, parse_set-serialize (proof_set w ip s))
        (if_true (r.epoch == s.epoch) _ _ ((==_iff r.epoch s.epoch).1 f.same_epoch)
          ∙ if_true (has_proofs s.proof_data r.current_epoch_proof_set) _ _ (
              has_proofs-all s.proof_data r.current_epoch_proof_set
                (All-of_In (λ x. In x r.current_epoch_proof_set) s.proof_data f.has))
          ∙ if_true (length s.proof_data == length r.current_epoch_proof_set) _ _
              ((==_iff (length s.proof_data) (length r.current_epoch_proof_set)).1 f.size)
          ∙ ap
              (λ e.
                goes_on (record { epoch = next_epoch e; current_epoch_proof_set = [] })
                  (async_empty e ∷ []))
              f.same_epoch)

  -- The epochs that are over.
  pub close_epochs-Passes :
      (bs : List Batch) (rounds : ℕ) (s : LocalProxy) (r : RemoteProxy)
      → s.epoch + rounds < 2 ^ 64
      → Follows bs s r
      → (r' : RemoteProxy) × Passes
          (close_epochs w ip rounds s).1.sent
          r
          r'
          (close_epochs w ip rounds s).1.calls
        × Follows bs (close_epochs w ip rounds s).0 r'
        × ((close_epochs w ip rounds s).0.epoch ≡ s.epoch + rounds)
  unfolding close_epochs
  close_epochs-Passes bs zero s r h f = (r, done, f, omega arith)
  close_epochs-Passes bs (suc rounds) s r h f =
      let s1 : LocalProxy = record { epoch = next_epoch s.epoch; proof_data = [] } in
      let r1 : RemoteProxy = record { epoch = next_epoch s.epoch; current_epoch_proof_set = [] } in
      let f1 : Follows bs s1 r1 = record {
        same_epoch = refl;
        has = λ x i. i;
        size = refl;
        new = all_new bs;
      } in
      let (r', passes, f', e) = close_epochs-Passes bs rounds s1 r1 (omega arith) f1 in
      (r', step (receive_proofs-Follows bs s r f) passes, f', e ∙ omega arith)

  abbrev pub DistinctProofs : List Batch → Type 0
  DistinctProofs = Pairwise (λ a b. signature_of a ≢ signature_of b)

  pub with_proof : Batch → RemoteProxy → RemoteProxy
  with_proof b r = record r { current_epoch_proof_set = signature_of b ∷ r.current_epoch_proof_set }

  pub with_proof-Follows :
      (b : Batch) (bs : List Batch) (s : LocalProxy) (r : RemoteProxy)
      → DistinctProofs (b ∷ bs)
      → Follows (b ∷ bs) s r
      → Follows bs (record s { proof_data = s.proof_data ++ signature_of b ∷ [] }) (with_proof b r)
  unfolding with_proof
  with_proof-Follows b bs s r d f = record {
    same_epoch = f.same_epoch;
    has = λ x i. elim (In-append_split x s.proof_data (signature_of b ∷ []) i) [
      | inl old ↦ inr (f.has x old)
      | inr (inl e) ↦ inl e
      | inr (inr n) ↦ absurd n
    ];
    size = length-append s.proof_data (signature_of b ∷ []) ∙ omega (arith, f.size);
    new = others bs d.0 f.new.1;
  }
    where
      others :
          (l : List Batch)
          → All (λ b'. signature_of b ≢ signature_of b') l
          → All (λ b'. ¬ In (signature_of b') r.current_epoch_proof_set) l
          → All (λ b'. ¬ In (signature_of b') (signature_of b ∷ r.current_epoch_proof_set)) l
      others [] h k = tt
      others (x ∷ l) h k = (λ i. elim i [ inl e ↦ h.0 (sym e) | inr j ↦ k.0 j ], others l h.1 k.1)

  pub receive_transactions-Follows :
      (b : Batch) (bs : List Batch) (s : LocalProxy) (r : RemoteProxy) (raws : List Bytes)
      (out : List Transaction)
      → s.epoch ≡ (parse_response b.0).epoch
      → All (Signed w) b.1
      → verify_batch_hash w b.1 (parse_response b.0) ≡ true
      → send_transactions w s.epoch (signature_of b) b.1 ≡ some (raws, out)
      → Follows (b ∷ bs) s r
      → receive_remote w (serialize_set (transaction_set w s.epoch b.0 raws)) r
        ≡ goes_on (with_proof b r) (map push_transaction out)
  unfolding receive_remote receive_transactions push_checked with_proof
  receive_transactions-Follows b bs s r raws out e signed verified sent f =
      let made = send_transactions-Sent w s.epoch (signature_of b) b.1 raws out signed sent in
      let (_, _, of_epoch, ids) = made in
      let response = parse_response b.0 in
      rw (receive_remote, parse_set-serialize (transaction_set w s.epoch b.0 raws))
        (if_true (r.epoch == response.epoch) _ _
            ((==_iff r.epoch response.epoch).1 (f.same_epoch ∙ e))
          ∙ (rw (checked_transactions-Sent w s.epoch (signature_of b) b.1 raws out made) (
              if_true (verify_batch_hash w b.1 response) _ _ verified
              ∙ if_true (all_of_epoch w r.epoch b.1) _ _
                  (subst (λ n. all_of_epoch w n b.1 ≡ true) (sym f.same_epoch) of_epoch)
              ∙ ap
                  (λ (l : List Bytes).
                    goes_on (record r { current_epoch_proof_set = l })
                      (map push_transaction (map (with_id w (signature_of b)) b.1)))
                  (insert_proof-new (signature_of b) r.current_epoch_proof_set f.new.0)
              ∙ ap (λ l. goes_on (with_proof b r) (map push_transaction l)) (sym ids))))
