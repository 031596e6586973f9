-- ===== src/ClientProxy/Honest.antt =====
-- What an honest local proxy sends is accepted by every other server, which gets the same
-- transactions with the same ids in the same order, and the same ends of epochs.
use mathlib.Core.List.{append-nil}
use neu_chain.Prelude.{
  ℕ, ◌-◌, ◌^◌, ◌≡◌, ◌<◌, ◌≤◌, refl, sym, ◌∙◌, subst, true, some, List, [], ◌∷◌, ◌++◌, map, String,
  ◌==◌, ==_iff, All, if_true, arith,
}
use neu_chain.Transaction.Wire.{Bytes}
use neu_chain.ClientProxy.{Network, push_transaction}
use neu_chain.ClientProxy.Local.{
  LocalProxy, Emitted, emit, nothing, close_epochs, receive_local, run_local, transaction_set,
}
use neu_chain.ClientProxy.Remote.{RemoteProxy, goes_on, run_remote, verify_batch_hash}
use neu_chain.ClientProxy.Sends.{Signed, send_transactions-total}
use neu_chain.ClientProxy.Follows.{
  Batch, Passes, done, step, Passes-append, Passes-run, Follows, all_new, close_epochs-Passes,
  DistinctProofs, with_proof, with_proof-Follows, receive_transactions-Follows,
}

module _ (w : Network) (ip : String) where
  open w use {coding, parse_response, serialize_set}

  -- The batches of a user collector, from an epoch on: the response of the epoch server is for these
  -- transactions, and no epoch is earlier than the last.
  unfoldable pub Ready : ℕ → List Batch → Type 0
  Ready e [] = Unit
  Ready e (b ∷ bs) =
      (e ≤ (parse_response b.0).epoch)
      × ((parse_response b.0).epoch < 2 ^ 64)
      × All (λ t. (parse_response b.0).epoch ≡ t.epoch) b.1
      × All (Signed w) b.1
      × (verify_batch_hash w b.1 (parse_response b.0) ≡ true)
      × Ready (parse_response b.0).epoch bs

  -- One batch.
  Taken : Batch → List Batch → RemoteProxy → LocalProxy → Emitted → Type 0
  Taken b bs r s out =
      (r' : RemoteProxy) × Passes w ip out.sent r r' out.calls
      × Follows w ip bs s r'
      × (s.epoch ≡ (parse_response b.0).epoch)

  receive_local-Taken :
      ((x : Bytes) → (d : Bytes) × (coding.hash x ≡ some d))
      → (b : Batch) (bs : List Batch) (s : LocalProxy) (r : RemoteProxy) → Ready s.epoch (b ∷ bs)
      → DistinctProofs w ip (b ∷ bs)
      → Follows w ip (b ∷ bs) s r
      → (o : LocalProxy × Emitted) × (receive_local w ip b.0 b.1 s ≡ some o) × Taken b bs r o.0 o.1
  unfolding receive_local Ready Taken
  receive_local-Taken hashes b bs s r (later, bound, of_epoch, signed, verified, _) d f =
      let response = parse_response b.0 in
      let rounds = response.epoch - s.epoch in
      let closed = close_epochs w ip rounds s in
      let (r1, passes, f1, e1) = close_epochs-Passes w ip (b ∷ bs) rounds s r (omega arith) f in
      let now : closed.0.epoch ≡ response.epoch = e1 ∙ omega arith in
      let ((raws, out), sent) =
        send_transactions-total w hashes closed.0.epoch response.signature b.1
          (subst (λ n. All (λ t. n ≡ t.epoch) b.1) (sym now) of_epoch) in
      let raw = serialize_set (transaction_set w closed.0.epoch b.0 raws) in
      (
        (
          record closed.0 { proof_data = closed.0.proof_data ++ response.signature ∷ [] },
          emit closed.1
              (record { sent = raw ∷ []; signals = []; calls = map push_transaction out }),
        ),
        if_true (closed.0.epoch == response.epoch) _ _
              ((==_iff closed.0.epoch response.epoch).1 now)
            ∙ rw sent refl,
        (
          with_proof w ip b r1,
          Passes-append w ip passes (
              subst (Passes w ip (raw ∷ []) r1 (with_proof w ip b r1))
                (append-nil (map push_transaction out))
                (step
                  (receive_transactions-Follows w ip b bs closed.0 r1 raws out now signed verified
                    sent f1)
                  done)),
          with_proof-Follows w ip b bs closed.0 r1 d f1,
          now,
        ),
      )

  run_local-Follows :
      ((x : Bytes) → (d : Bytes) × (coding.hash x ≡ some d))
      → (bs : List Batch) (s : LocalProxy) (r : RemoteProxy) → Ready s.epoch bs
      → DistinctProofs w ip bs
      → Follows w ip bs s r
      → (o : LocalProxy × Emitted) × (r' : RemoteProxy) × (run_local w ip bs s ≡ some o)
        × Passes w ip o.1.sent r r' o.1.calls
        × (r'.epoch ≡ o.0.epoch)
  unfolding run_local Ready Taken
  run_local-Follows hashes [] s r h d f = ((s, nothing), r, refl, done, f.same_epoch)
  run_local-Follows hashes (b ∷ bs) s r h d f =
      let (later, bound, of_epoch, signed, verified, ready) = h in
      let ((s1, out), e, (r1, passes, f1, now)) = receive_local-Taken hashes b bs s r h d f in
      let ((s2, out'), r2, e', passes', same) =
        run_local-Follows hashes bs s1 r1 (subst (λ n. Ready n bs) (sym now) ready) d.1 f1 in
      (
        (s2, emit out out'),
        r2,
        rw (run_local, e) (rw e' refl),
        Passes-append w ip passes passes',
        same,
      )

  -- Every server gets from an honest proxy what that proxy gives to its own server. Take a local
  -- proxy and a remote one that start with the same epoch, and batches whose transactions are signed
  -- by their users, in the bounds of the format and of the epoch of the response to them, where the
  -- response is that of the epoch server for the batch, no two responses have the same signature, no
  -- epoch is earlier than the last, and the hash function does not fail. Then no check stops the
  -- local proxy, the remote one accepts every message, and makes the same calls of its buffer: the
  -- same transactions with the same ids in the same order, and the same ends of epochs.
  pub run_remote-run_local :
      ((x : Bytes) → (d : Bytes) × (coding.hash x ≡ some d))
      → (bs : List Batch) (epoch : ℕ) → Ready epoch bs
      → DistinctProofs w ip bs
      → (s : LocalProxy) × (out : Emitted) × (r : RemoteProxy) × (run_local w ip bs
            (record { epoch = epoch; proof_data = [] })
          ≡ some (s, out))
        × (run_remote w out.sent (record { epoch = epoch; current_epoch_proof_set = [] })
            ≡ goes_on r out.calls)
        × (r.epoch ≡ s.epoch)
  run_remote-run_local hashes bs epoch h d =
      let ((s, out), r, e, passes, same) =
        run_local-Follows hashes bs (record { epoch = epoch; proof_data = [] })
          (record { epoch = epoch; current_epoch_proof_set = [] }) h d
          (record { same_epoch = refl; has = λ x i. i; size = refl; new = all_new w ip bs }) in
      (s, out, r, e, Passes-run w ip passes, same)
