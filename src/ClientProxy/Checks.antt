-- ===== src/ClientProxy/Checks.antt =====
-- What a remote proxy lets through, whatever the other server sends.
use neu_chain.Prelude.{
  ℕ, ◌≡◌, refl, sym, subst, inl, inr, Bool, true, false, Option, none, some, List, [], ◌∷◌, ◌++◌,
  map, ◌==◌, ==_iff, length, if◌then◌else◌, All, In,
}
use neu_chain.Transaction.{Transaction}
use neu_chain.Transaction.Wire.{Bytes}
use neu_chain.Consensus.{ProofType, con, tx, heartbeat, malicious}
use neu_chain.ClientProxy.{
  Network, EpochResponse, TransactionSet, BufferCall, push_transaction, async_empty, next_epoch,
  with_id,
}
use neu_chain.ClientProxy.Remote.{
  RemoteProxy, Outcome, goes_on, stopped, malicious_proxy, invalid_proxy, receive_remote,
  receive_proofs, receive_transactions, push_checked, run_remote, after_calls, verify_batch_hash,
  has_proofs, insert_proof, payload_signed, checked_transactions, all_of_epoch,
}
use neu_chain.ClientProxy.Workers.{checked_transactions-signed, all_of_epoch-All}

abbrev pub calls_of : Outcome → List BufferCall
calls_of stopped = []
calls_of (malicious_proxy s k) = k
calls_of (invalid_proxy s k) = k
calls_of (goes_on s k) = k

module _ (w : Network) where
  -- A transaction that its user has signed, in a batch to which the epoch server has given the epoch
  -- of the transaction, with the id that follows from the signature of the server.
  abbrev pub Certified : Transaction → Type 0
  Certified t =
      (response : EpochResponse) × (ts : List Transaction) × (u : Transaction) × In u ts
      × (t ≡ with_id w response.signature u)
      × (verify_batch_hash w ts response ≡ true)
      × (payload_signed w u ≡ true)
      × (u.epoch ≡ response.epoch)

  -- Calls from an epoch on.
  pub Trusted : ℕ → List BufferCall → Type 0
  Trusted e [] = Unit
  Trusted e (push_transaction t ∷ l) = (t.epoch ≡ e) × Certified t × Trusted e l
  Trusted e (async_empty k ∷ l) = (k ≡ e) × Trusted (next_epoch e) l

  abbrev StepOk : ℕ → Outcome → Type 0
  StepOk e stopped = Unit
  StepOk e (malicious_proxy s k) = k ≡ []
  StepOk e (invalid_proxy s k) = k ≡ []
  StepOk e (goes_on s k) = (k' : List BufferCall) → Trusted s.epoch k' → Trusted e (k ++ k')

  if_StepOk :
      (e : ℕ) (c : Bool) (x y : Outcome)
      → (c ≡ true → StepOk e x)
      → (c ≡ false → StepOk e y)
      → StepOk e (if c then x else y)
  if_StepOk e true x y a b = a refl
  if_StepOk e false x y a b = b refl

  -- All that is pushed of one batch.
  pushed-Trusted :
      (response : EpochResponse) (ts l : List Transaction) (k' : List BufferCall)
      → verify_batch_hash w ts response ≡ true
      → ((u : Transaction) → In u l → In u ts)
      → All (λ u. payload_signed w u ≡ true) l
      → All (λ u. u.epoch ≡ response.epoch) l
      → Trusted response.epoch k'
      → Trusted response.epoch (map push_transaction (map (with_id w response.signature) l) ++ k')
  unfolding with_id Trusted
  pushed-Trusted response ts [] k' v sub signed of_epoch h = h
  pushed-Trusted response ts (u ∷ l) k' v sub signed of_epoch h = (
    of_epoch.0,
    (response, ts, u, sub u (inl refl), refl, v, signed.0, of_epoch.0),
    pushed-Trusted response ts l k' v (λ x i. sub x (inr i)) signed.1 of_epoch.1 h,
  )

  push_checked-Ok :
      (response : EpochResponse) (ts : List Transaction) (s : RemoteProxy)
      → s.epoch ≡ response.epoch
      → All (λ u. payload_signed w u ≡ true) ts
      → StepOk s.epoch (push_checked w response ts s)
  unfolding push_checked
  push_checked-Ok response ts s same signed =
      if_StepOk s.epoch (verify_batch_hash w ts response) _ _
        (λ v.
          if_StepOk s.epoch (all_of_epoch w s.epoch ts) _ _
            (λ a k' h.
              subst
                (λ e.
                  Trusted e (map push_transaction (map (with_id w response.signature) ts) ++ k'))
                (sym same)
                (pushed-Trusted response ts ts k' v (λ u i. i) signed
                  (all_of_epoch-All w response.epoch ts
                    (subst (λ e. all_of_epoch w e ts ≡ true) same a))
                  (subst (λ e. Trusted e k') same h)))
            (λ _. tt))
        (λ _. refl)

  receive_transactions-Ok :
      (m : TransactionSet) (s : RemoteProxy) → StepOk s.epoch (receive_transactions w m s)
  unfolding receive_transactions
  receive_transactions-Ok m s0 =
      let response = w.parse_response m.proof in
      if_StepOk s0.epoch (s0.epoch == response.epoch) _ _
        (λ same.
          of_checked response ((==_iff s0.epoch response.epoch).0 same)
            (checked_transactions w m.data_list) refl)
        (λ _. refl)
    where
      of_checked :
          (response : EpochResponse)
          → s0.epoch ≡ response.epoch
          → (o : Option (Option (List Transaction))) → checked_transactions w m.data_list ≡ o
          → StepOk s0.epoch (elim o [
            | none ↦ stopped
            | some none ↦
                malicious_proxy
                  (record s0 {
                    current_epoch_proof_set =
                        insert_proof response.signature s0.current_epoch_proof_set;
                  })
                  []
            | some (some ts) ↦ push_checked w response ts (record s0 {
              current_epoch_proof_set = insert_proof response.signature s0.current_epoch_proof_set;
            })
          ])
      of_checked response same none e = tt
      of_checked response same (some none) e = refl
      of_checked response same (some (some ts)) e =
          push_checked-Ok response ts
            (record s0 {
              current_epoch_proof_set = insert_proof response.signature s0.current_epoch_proof_set;
            })
            same (checked_transactions-signed w m.data_list ts e)

  receive_proofs-Ok : (m : TransactionSet) (s : RemoteProxy) → StepOk s.epoch (receive_proofs w m s)
  unfolding receive_proofs Trusted
  receive_proofs-Ok m s =
      if_StepOk s.epoch (s.epoch == m.epoch) _ _
        (λ _.
          if_StepOk s.epoch (has_proofs m.data_list s.current_epoch_proof_set) _ _
            (λ _.
              if_StepOk s.epoch (length m.data_list == length s.current_epoch_proof_set) _ _
                (λ _ k' h. (refl, h)) (λ _. tt))
            (λ _. tt))
        (λ _. tt)

  receive_remote-Ok : (raw : Bytes) (s : RemoteProxy) → StepOk s.epoch (receive_remote w raw s)
  unfolding receive_remote
  receive_remote-Ok raw s = of_message (w.parse_set raw)
    where
      of_type :
          (m : TransactionSet) (k : ProofType)
          → StepOk s.epoch (elim k [
            | con ↦ receive_proofs w m s
            | tx ↦ receive_transactions w m s
            | heartbeat ↦ receive_transactions w m s
            | malicious ↦ receive_transactions w m s
          ])
      of_type m con = receive_proofs-Ok m s
      of_type m tx = receive_transactions-Ok m s
      of_type m heartbeat = receive_transactions-Ok m s
      of_type m malicious = receive_transactions-Ok m s

      of_message :
          (o : Option TransactionSet)
          → StepOk s.epoch (elim o [
            | none ↦ stopped
            | some m ↦ elim m.type [
              | con ↦ receive_proofs w m s
              | tx ↦ receive_transactions w m s
              | heartbeat ↦ receive_transactions w m s
              | malicious ↦ receive_transactions w m s
            ]
          ])
      of_message none = tt
      of_message (some m) = of_type m m.type

  after_calls-Trusted :
      (e e' : ℕ) (k : List BufferCall) (o : Outcome)
      → ((k' : List BufferCall) → Trusted e' k' → Trusted e (k ++ k'))
      → Trusted e' (calls_of o)
      → Trusted e (calls_of (after_calls k o))
  unfolding Trusted
  after_calls-Trusted e e' k stopped f h = tt
  after_calls-Trusted e e' k (malicious_proxy s l) f h = f l h
  after_calls-Trusted e e' k (invalid_proxy s l) f h = f l h
  after_calls-Trusted e e' k (goes_on s l) f h = f l h

  -- Whatever another server sends, in whatever order: each transaction that its proxy puts into the
  -- buffer is signed by its user and stands in a batch that the epoch server has signed for the
  -- epoch, with the id that follows from that signature; it comes before the end of its epoch and
  -- after the ends of those before, and the epochs end one after the other.
  pub run_remote-Trusted :
      (l : List Bytes) (s : RemoteProxy) → Trusted s.epoch (calls_of (run_remote w l s))
  unfolding run_remote Trusted
  run_remote-Trusted [] s = tt
  run_remote-Trusted (raw ∷ l) s =
      next (receive_remote w raw s) (receive_remote-Ok raw s) (run_remote-Trusted l)
    where
      next :
          (o : Outcome)
          → StepOk s.epoch o
          → ((s' : RemoteProxy) → Trusted s'.epoch (calls_of (run_remote w l s')))
          → Trusted s.epoch (
              calls_of (elim o [
                | goes_on s' calls ↦ after_calls calls (run_remote w l s')
                | malicious_proxy s' calls ↦ malicious_proxy s' calls
                | invalid_proxy s' calls ↦ invalid_proxy s' calls
                | stopped ↦ stopped
              ]))
      next stopped h ih = tt
      next (malicious_proxy s' k) h ih = subst (Trusted s.epoch) (sym h) tt
      next (invalid_proxy s' k) h ih = subst (Trusted s.epoch) (sym h) tt
      next (goes_on s' k) h ih =
          after_calls-Trusted s.epoch s'.epoch k (run_remote w l s') h (ih s')
