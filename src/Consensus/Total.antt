-- ===== src/Consensus/Total.antt =====
-- A message of an epoch below `MAX_EPOCH` is processed: no `CHECK` fails.
use neu_chain.Prelude.{
  ℕ, ◌<◌, ◌≡◌, refl, ap, ◌∙◌, inl, inr, Bool, true, false, not, Option, some, none, String, leb,
  ltb, lt→ltb, length, if◌then◌else◌, Bool-cases, if_true, if_false,
}
use neu_chain.Consensus.{
  ProofType, con, heartbeat, malicious, tx, ProofSet, ControlBlock, proxy_of, set_proxy, max_epoch,
  quorum, vote, malicious_target, obtain_malicious, confirmed_client_proxy, recv_heartbeat,
  recv_con, recv_malicious, recv_proof_set,
}

abbrev Returns : Option ControlBlock → Type 0
Returns o = (s : ControlBlock) × (o ≡ some s)

-- Whichever way a test goes.
either :
    (c : Bool) {x y : Option ControlBlock} → Returns x → Returns y → Returns (if c then x else y)
either true a b = a
either false a b = b

passes :
    (c : Bool) {x : Option ControlBlock} → c ≡ true → Returns x → Returns (if c then x else none)
passes c e (s, f) = (s, if_true c _ _ e ∙ f)

module _ (epoch : ℕ) (h : epoch < max_epoch) where
  malicious_target-total :
      (target : String) (s : ControlBlock) → Returns (malicious_target target epoch s)
  unfolding malicious_target
  malicious_target-total target s =
      passes (ltb epoch max_epoch) (lt→ltb epoch max_epoch h) (_, refl)

  confirmed-total :
      (observer : String) (s : ControlBlock) → Returns (confirmed_client_proxy observer epoch s)
  unfolding confirmed_client_proxy
  confirmed-total observer s = passes (ltb epoch max_epoch) (lt→ltb epoch max_epoch h) (_, refl)

  obtain_malicious-total :
      (observer target : String) (s : ControlBlock)
      → Returns (obtain_malicious observer target epoch s)
  unfolding obtain_malicious
  obtain_malicious-total observer target s =
      let voted = vote observer target epoch s in
      either (not (proxy_of target s).is_valid) (_, refl)
        (either
          (leb (quorum s.total_server_count) (length ((proxy_of target voted).epoch_voters epoch)))
          (malicious_target-total target voted) (_, refl))

module _ (now : ℕ) (m : ProofSet) (s : ControlBlock) (h : m.epoch < max_epoch) where
  recv_malicious-total : Returns (recv_malicious m s)
  unfolding recv_malicious
  recv_malicious-total =
      either (not (proxy_of m.ip s).is_valid) (_, refl)
        (obtain_malicious-total m.epoch h m.ip m.proof (set_proxy m.ip (proxy_of m.ip s) s))

  by_type-total :
      (proxy_of m.ip s).is_valid ≡ true
      → (k : ProofType)
      → Returns (elim k [
        | heartbeat ↦ recv_heartbeat now m s
        | con ↦ recv_con now m s
        | malicious ↦ recv_malicious m s
        | tx ↦ some s
      ])
  unfolding recv_heartbeat recv_con
  by_type-total valid heartbeat = passes (proxy_of m.ip s).is_valid valid (_, refl)
  by_type-total valid con = passes (proxy_of m.ip s).is_valid valid (
      confirmed-total m.epoch h m.ip (
        set_proxy m.ip (record (proxy_of m.ip s) { latest_epoch = m.epoch; last_heartbeat = now })
          s))
  by_type-total valid malicious = recv_malicious-total
  by_type-total valid tx = (s, refl)

  pub recv_proof_set-total : (s' : ControlBlock) × (recv_proof_set now m s ≡ some s')
  unfolding recv_proof_set
  recv_proof_set-total =
      either (not s.start) (s, refl)
        (elim (Bool-cases (proxy_of m.ip s).is_valid) [
          | inl on ↦ let (s', e) = by_type-total on m.type in (s', if_false _ _ _ (ap not on) ∙ e)
          | inr off ↦ (s, if_true _ _ _ (ap not off))
        ])
