-- ===== src/Consensus/Receive.antt =====
-- A message that is received keeps the invariant, and every mark.
use neu_chain.Prelude.{
  ℕ, ◌≡◌, refl, sym, ap, ◌∙◌, subst, inl, inr, not, none, some, List, ◌∷◌, Bool-cases, if_true,
  if_false, some_inj, guarded,
}
use neu_chain.Consensus.{
  ProofType, con, heartbeat, malicious, tx, ProofSet, ControlBlock, proxy_of, set_proxy,
  recv_heartbeat, recv_con, recv_malicious, recv_proof_set,
}
use neu_chain.Consensus.Invariant.{StateOk}
use neu_chain.Consensus.Steps.{
  Next, Next-trans, touch-Next, confirmed_client_proxy-Next, obtain_malicious-Next,
}

module _ (n : ℕ) (ms : List ProofSet) (now : ℕ) (m : ProofSet) (s s' : ControlBlock)
    (i : StateOk n (m ∷ ms) s) where
  recv_heartbeat-Next : recv_heartbeat now m s ≡ some s' → Next n (m ∷ ms) s s'
  unfolding recv_heartbeat
  recv_heartbeat-Next e =
      let (_, out) = guarded (proxy_of m.ip s).is_valid e in
      subst (λ u. Next n (m ∷ ms) s u) out
        (touch-Next n (m ∷ ms) m.ip (proxy_of m.ip s).latest_epoch now s i)

  recv_con-Next : m.type ≡ con → recv_con now m s ≡ some s' → Next n (m ∷ ms) s s'
  unfolding recv_con
  recv_con-Next kind e =
      let touched =
        set_proxy m.ip (record (proxy_of m.ip s) { latest_epoch = m.epoch; last_heartbeat = now })
          s in
      elim (Bool-cases (proxy_of m.ip s).is_valid) [
        | inl on ↦ Next-trans n (m ∷ ms) s touched s' (touch-Next n (m ∷ ms) m.ip m.epoch now s i) (
            confirmed_client_proxy-Next n (m ∷ ms) m.ip m.epoch touched s'
              (m, inl refl, (kind, refl, refl)) (sym (if_true _ _ _ on) ∙ e))
        | inr off ↦ absurd_none (sym (if_false _ _ _ off) ∙ e)
      ]
    where
      absurd_none : none ≡ some s' → Next n (m ∷ ms) s s'
      absurd_none h = cc

  recv_malicious-Next : m.type ≡ malicious → recv_malicious m s ≡ some s' → Next n (m ∷ ms) s s'
  unfolding recv_malicious
  recv_malicious-Next kind e =
      let b = proxy_of m.ip s in
      let touched = set_proxy m.ip b s in
      let step = touch-Next n (m ∷ ms) m.ip b.latest_epoch b.last_heartbeat s i in
      elim (Bool-cases b.is_valid) [
        | inr off ↦
            subst (λ u. Next n (m ∷ ms) s u) (some_inj (sym (if_true _ _ _ (ap not off)) ∙ e)) step
        | inl on ↦ Next-trans n (m ∷ ms) s touched s' step (
            obtain_malicious-Next n (m ∷ ms) m.ip m.proof m.epoch touched s'
              (m, inl refl, (kind, refl, refl, refl)) (sym (if_false _ _ _ (ap not on)) ∙ e))
      ]

  same_state : some s ≡ some s' → Next n (m ∷ ms) s s'
  same_state e = subst (λ u. Next n (m ∷ ms) s u) (some_inj e) (i, λ o marked. (marked, refl))

  by_type :
      (k : ProofType)
      → m.type ≡ k
      → elim k [
        | heartbeat ↦ recv_heartbeat now m s
        | con ↦ recv_con now m s
        | malicious ↦ recv_malicious m s
        | tx ↦ some s
      ]
        ≡ some s'
      → Next n (m ∷ ms) s s'
  by_type heartbeat kind e = recv_heartbeat-Next e
  by_type con kind e = recv_con-Next kind e
  by_type malicious kind e = recv_malicious-Next kind e
  by_type tx kind e = same_state e

  pub recv_proof_set-Next : recv_proof_set now m s ≡ some s' → Next n (m ∷ ms) s s'
  unfolding recv_proof_set
  recv_proof_set-Next e = elim (Bool-cases (not s.start)) [
    | inl off ↦ same_state (sym (if_true _ _ _ off) ∙ e)
    | inr on ↦ elim (Bool-cases (not (proxy_of m.ip s).is_valid)) [
      | inl marked ↦ same_state (sym (if_true _ _ _ marked) ∙ (sym (if_false _ _ _ on) ∙ e))
      | inr valid ↦ by_type m.type refl (sym (if_false _ _ _ valid) ∙ (sym (if_false _ _ _ on) ∙ e))
    ]
  ]
