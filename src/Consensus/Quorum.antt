-- ===== src/Consensus/Quorum.antt =====
-- What a mark and the end of an epoch say of the messages that were received.
use neu_chain.Prelude.{
  ℕ, ◌-◌, ◌/◌, ◌≤◌, ◌<◌, ◌≡◌, refl, ap, ◌∙◌, subst, ◌⊎◌, true, false, some, List, [], ◌∷◌, String,
  ==_iff, length, map, All, In, All-of_In, some_inj, arith,
}
use neu_chain.Consensus.{
  ProofSet, ControlBlock, new_control_block, set_consensus_count, start_service, proxy_of, quorum,
  max_epoch, recv_proof_set, epoch_finished,
}
use neu_chain.Consensus.Members.{Distinct, one_outside}
use neu_chain.Consensus.Invariant.{
  Said, VotesAgainst, Confirms, StateOk, Keeps, MarkedBy, Signalled, StateOk-later,
}
use neu_chain.Consensus.Total.{recv_proof_set-total}
use neu_chain.Consensus.Receive.{recv_proof_set-Next}

-- The messages that have been received since the service was started for n servers, the last one
-- first, and the state that they leave.
pub data Reach (n : ℕ) : List ProofSet → ControlBlock → Type 0 where
  starts :
      {s t : ControlBlock}
      → set_consensus_count n new_control_block ≡ some s
      → start_service s ≡ some t
      → Reach n [] t
  receives :
      {ms : List ProofSet} {s t : ControlBlock} (now : ℕ) (m : ProofSet)
      → Reach n ms s
      → recv_proof_set now m s ≡ some t
      → Reach n (m ∷ ms) t

module _ (n : ℕ) where
  started-Ok : StateOk n [] (record new_control_block { start = true; total_server_count = n })
  unfolding neu_chain.HashMap.find
  started-Ok = record {
    started = refl;
    total = refl;
    proxies = λ t. record { voted = λ e v at. absurd at; once = λ e. tt; reached = λ h. cc };
    approved = λ e o at. absurd at;
    approved_once = λ e. tt;
    signalled = λ t e at. absurd at;
    signalled_once = tt;
  }

  pub Reach-StateOk : {ms : List ProofSet} {s : ControlBlock} → Reach n ms s → StateOk n ms s
  Reach-StateOk (starts {s = s} {t = t} e f) =
      subst (StateOk n []) (some_inj (ap start_service (some_inj e) ∙ f)) started-Ok
  Reach-StateOk (receives {ms = ms} {s = s} {t = t} now m r e) =
      (recv_proof_set-Next n ms now m s t (StateOk-later n m ms s (Reach-StateOk r)) e).0

  -- A server is marked as malicious only on the votes of f + 1 different servers, for n = 3f + 1,
  -- whatever messages arrive in whatever order: each has sent a vote against it for the epoch from
  -- which it is marked. So whoever at most f servers are, another one has voted.
  pub Reach-Marked :
      (ms : List ProofSet) (s : ControlBlock) (t : String) (bad : List String)
      → Reach n ms s
      → (proxy_of t s).is_valid ≡ false
      → length bad ≤ (n - 1) / 3
      → (voters : List String) × Distinct voters
        × (quorum n ≤ length voters)
        × All (λ v. Said (VotesAgainst v t (proxy_of t s).first_invalid_epoch) ms) voters
        × ((v : String) × In v voters × (¬ In v bad))
  Reach-Marked ms s t bad r marked few =
      let ok = (Reach-StateOk r).proxies t in
      let epoch = (proxy_of t s).first_invalid_epoch in
      let voters = (proxy_of t s).epoch_voters epoch in
      (
        voters,
        ok.once epoch,
        ok.reached marked,
        All-of_In _ voters (λ v at. ok.voted epoch v at),
        one_outside voters bad (ok.once epoch) (enough (ok.reached marked)),
      )
    where
      enough : {k : ℕ} → quorum n ≤ k → length bad < k
      enough h = omega arith

  -- The coordinator goes on with an epoch only when n different servers have confirmed it, or are
  -- marked from it or an earlier epoch on.
  pub Reach-epoch_finished :
      (ms : List ProofSet) (s : ControlBlock) (e : ℕ)
      → Reach n ms s
      → epoch_finished e s ≡ true
      → (servers : List String) × Distinct servers
        × (length servers ≡ n)
        × All (λ o. Said (Confirms o e) ms ⊎ MarkedBy e (proxy_of o s)) servers
  Reach-epoch_finished ms s e r done =
      let ok = Reach-StateOk r in
      (
        s.epoch_approve_map e,
        ok.approved_once e,
        (==_iff _ _).0 done ∙ ok.total,
        All-of_In _ (s.epoch_approve_map e) (λ o at. ok.approved e o at),
      )

  -- A mark is final, and made once: whatever message of an epoch below MAX_EPOCH comes next, it is
  -- processed and no check fails, a server that is marked stays so from the same epoch on, and the
  -- handler that stops the traffic of a malicious server has been called at most once for any
  -- server, with the epoch of its mark.
  pub Reach-final :
      (ms : List ProofSet) (s : ControlBlock) (now : ℕ) (m : ProofSet)
      → Reach n ms s
      → m.epoch < max_epoch
      → (s' : ControlBlock) × (recv_proof_set now m s ≡ some s')
        × Keeps s s'
        × Distinct (map (λ x. x.0) s'.malicious_signals)
        × ((t : String) (e : ℕ) → In (t, e) s'.malicious_signals → Signalled e (proxy_of t s'))
  Reach-final ms s now m r h =
      let (s', e) = recv_proof_set-total now m s h in
      let (ok, keeps) =
        recv_proof_set-Next n ms now m s s' (StateOk-later n m ms s (Reach-StateOk r)) e in
      (s', e, keeps, ok.signalled_once, ok.signalled)
