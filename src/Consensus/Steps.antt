-- ===== src/Consensus/Steps.antt =====
-- Every message keeps the invariant of the consensus state, and every mark.
use text.Mathlib.TextEquality.{eq_iff}
use neu_chain.Prelude.{
  ℕ, ◌+◌, ◌-◌, ◌≤◌, ◌≡◌, ◌≢◌, refl, sym, ap, ◌∙◌, subst, ◌⊎◌, inl, inr, true, false, not, ◌&&◌,
  some, List, [], ◌∷◌, String, str_eq, ltb, leb, length, map, Bool-cases, All, In, if_true,
  if_false, some_inj, &&_parts, leb→le, guarded,
}
use neu_chain.Consensus.{
  ProxyBlock, ProofSet, ControlBlock, proxy_of, set_proxy, max_epoch, quorum, malicious_target,
  vote, obtain_malicious, confirmed_client_proxy,
}
use neu_chain.Consensus.Members.{
  Distinct, In-insert_member, insert_member-Distinct, proxy_of-set_proxy, approve_from_lem,
}
use neu_chain.Consensus.Invariant.{
  Said, VotesAgainst, Confirms, ProxyOk, StateOk, Keeps, MarkedBy, Signalled, set_at-each,
  Keeps-set_proxy, StateOk-set_proxy,
}

module _ (n : ℕ) (ms : List ProofSet) where
  abbrev pub Next : ControlBlock → ControlBlock → Type 0
  Next s s' = StateOk n ms s' × Keeps s s'

  pub Next-trans : (s t u : ControlBlock) → Next s t → (StateOk n ms t → Next t u) → Next s u
  Next-trans s t u a f =
      let (ok, keeps) = f a.0 in
      (ok, λ o e. let (m, p) = a.1 o e in let (m', p') = keeps o m in (m', p' ∙ p))

  set_proxy-Next :
      (k : String) (b : ProxyBlock) (s : ControlBlock)
      → ProxyOk n ms k b
      → ((proxy_of k s).is_valid ≡ false
          → (b.is_valid ≡ false) × (b.first_invalid_epoch ≡ (proxy_of k s).first_invalid_epoch))
      → StateOk n ms s
      → Next s (set_proxy k b s)
  set_proxy-Next k b s ok h i = (StateOk-set_proxy n ms k b s i ok h, Keeps-set_proxy k b s h)

  -- Only the time and the latest epoch of a proxy change.
  pub touch-Next :
      (k : String) (latest time : ℕ) (s : ControlBlock)
      → StateOk n ms s
      → Next s
          (set_proxy k (record (proxy_of k s) { latest_epoch = latest; last_heartbeat = time }) s)
  touch-Next k latest time s i =
      let ok = i.proxies k in
      set_proxy-Next k _ s (record { voted = ok.voted; once = ok.once; reached = ok.reached })
        (λ e. (e, refl)) i

  vote-Next :
      (observer target : String) (epoch : ℕ) (s : ControlBlock)
      → (proxy_of target s).is_valid ≡ true
      → Said (VotesAgainst observer target epoch) ms
      → StateOk n ms s
      → Next s (vote observer target epoch s)
  unfolding vote
  vote-Next observer target epoch s valid said i =
      let ok = i.proxies target in
      let b = proxy_of target s in
      set_proxy-Next target _ s
        (record {
          voted =
              set_at-each (λ e l. (v : String) → In v l → Said (VotesAgainst v target e) ms) epoch _
                b.epoch_voters
                (λ v at. elim (In-insert_member v observer (b.epoch_voters epoch) at) [
                  | inl e ↦ subst (λ x. Said (VotesAgainst x target epoch) ms) (sym e) said
                  | inr old ↦ ok.voted epoch v old
                ])
                ok.voted;
          once =
              set_at-each (λ e l. Distinct l) epoch _ b.epoch_voters
                (insert_member-Distinct observer (b.epoch_voters epoch) (ok.once epoch)) ok.once;
          reached = λ e. cc;
        })
        (λ e. cc) i

  apart :
      (t : String) (l : List (String × ℕ))
      → ((x : String × ℕ) → In x l → t ≢ x.0)
      → All (λ x. t ≢ x) (map (λ x. x.0) l)
  apart t [] f = tt
  apart t (x ∷ l) f = (f x (inl refl), apart t l (λ y i. f y (inr i)))

  malicious_target-Next :
      (target : String) (epoch : ℕ) (s s' : ControlBlock)
      → (proxy_of target s).is_valid ≡ true
      → quorum n ≤ length ((proxy_of target s).epoch_voters epoch)
      → malicious_target target epoch s ≡ some s'
      → StateOk n ms s
      → Next s s'
  unfolding malicious_target
  malicious_target-Next target epoch s s' valid enough e i =
      let ok = i.proxies target in
      let b = record (proxy_of target s) { is_valid = false; first_invalid_epoch = epoch } in
      let marked = set_proxy target b s in
      let (m, keeps) =
        set_proxy-Next target b s
          (record { voted = ok.voted; once = ok.once; reached = λ x. enough }) (λ x. cc) i in
      let (_, out) = guarded (ltb epoch max_epoch) e in
      let mark =
        proxy_of-set_proxy target target b s
        ∙ if_true (str_eq target target) _ _ ((eq_iff target target).1 refl) in
      subst (λ u. Next s u) out
        (
          record {
            started = m.started;
            total = m.total;
            proxies = m.proxies;
            approved = λ e' o at.
                elim (Bool-cases (leb epoch e' && ltb e' (epoch + (max_epoch - epoch)))) [
                  | inl c ↦
                      elim (In-insert_member o target (s.epoch_approve_map e') (
                        subst (In o)
                          (approve_from_lem target (max_epoch - epoch) epoch e' s.epoch_approve_map
                            ∙ if_true _ _ _ c)
                          at)) [
                            | inl same ↦ inr (
                                subst (λ x. MarkedBy e' (proxy_of x marked)) (sym same)
                                  (subst (MarkedBy e') (sym mark)
                                    (refl, leb→le _ _ (&&_parts _ _ c).0)))
                            | inr old ↦ m.approved e' o old
                          ]
                  | inr c ↦ m.approved e' o (
                      subst (In o)
                        (approve_from_lem target (max_epoch - epoch) epoch e' s.epoch_approve_map
                          ∙ if_false _ _ _ c)
                        at)
                ];
            approved_once = λ e'.
                subst Distinct
                  (sym (approve_from_lem target (max_epoch - epoch) epoch e' s.epoch_approve_map))
                  (elim (Bool-cases (leb epoch e' && ltb e' (epoch + (max_epoch - epoch)))) [
                    | inl c ↦ subst Distinct (sym (if_true _ _ _ c)) (
                        insert_member-Distinct target (s.epoch_approve_map e') (i.approved_once e'))
                    | inr c ↦ subst Distinct (sym (if_false _ _ _ c)) (i.approved_once e')
                  ]);
            signalled = λ t e' at. elim at [
              | inl p ↦
                  subst (λ x. Signalled x.1 (proxy_of x.0 marked)) (sym p)
                    (subst (Signalled epoch) (sym mark) (refl, refl))
              | inr old ↦ m.signalled t e' old
            ];
            signalled_once =
                (apart target s.malicious_signals (λ x at p. unmarked x at p), i.signalled_once);
          },
          keeps,
        )
    where
      unmarked : (x : String × ℕ) → In x s.malicious_signals → target ≢ x.0
      unmarked x at p =
          let off = (i.signalled x.0 x.1 at).0 in
          let on = subst (λ t. (proxy_of t s).is_valid ≡ true) p valid in cc

  pub confirmed_client_proxy-Next :
      (observer : String) (epoch : ℕ) (s s' : ControlBlock)
      → Said (Confirms observer epoch) ms
      → confirmed_client_proxy observer epoch s ≡ some s'
      → StateOk n ms s
      → Next s s'
  unfolding confirmed_client_proxy
  confirmed_client_proxy-Next observer epoch s s' said e i =
      let (_, out) = guarded (ltb epoch max_epoch) e in
      subst (λ u. Next s u) out
        (
          record {
            started = i.started;
            total = i.total;
            proxies = i.proxies;
            approved =
                set_at-each
                  (λ e' l.
                    (o : String) → In o l → Said (Confirms o e') ms ⊎ MarkedBy e' (proxy_of o s))
                  epoch _ s.epoch_approve_map
                  (λ o at. elim (In-insert_member o observer (s.epoch_approve_map epoch) at) [
                    | inl p ↦ inl (subst (λ x. Said (Confirms x epoch) ms) (sym p) said)
                    | inr old ↦ i.approved epoch o old
                  ])
                  i.approved;
            approved_once =
                set_at-each (λ e' l. Distinct l) epoch _ s.epoch_approve_map
                  (insert_member-Distinct observer (s.epoch_approve_map epoch)
                    (i.approved_once epoch))
                  i.approved_once;
            signalled = i.signalled;
            signalled_once = i.signalled_once;
          },
          λ o marked. (marked, refl),
        )

  pub obtain_malicious-Next :
      (observer target : String) (epoch : ℕ) (s s' : ControlBlock)
      → Said (VotesAgainst observer target epoch) ms
      → obtain_malicious observer target epoch s ≡ some s'
      → StateOk n ms s
      → Next s s'
  unfolding obtain_malicious vote
  obtain_malicious-Next observer target epoch s s' said e i =
      elim (Bool-cases (proxy_of target s).is_valid) [
        | inr off ↦
            subst (λ u. Next s u) (some_inj (sym (if_true _ _ _ (ap not off)) ∙ e))
              (touch-Next target (proxy_of target s).latest_epoch (proxy_of target s).last_heartbeat
                s i)
        | inl valid ↦
            let voted = vote observer target epoch s in
            let e' = sym (if_false _ _ _ (ap not valid)) ∙ e in
            let step = vote-Next observer target epoch s valid said i in
            let still =
              ap (λ b. b.is_valid)
                (proxy_of-set_proxy target target _ s
                  ∙ if_true _ _ _ ((eq_iff target target).1 refl))
              ∙ valid in
            elim (Bool-cases (
              leb (quorum s.total_server_count)
                (length ((proxy_of target voted).epoch_voters epoch)))) [
                  | inl enough ↦ Next-trans s voted s' step (
                      malicious_target-Next target epoch voted s' still
                        (subst (λ t. quorum t ≤ length ((proxy_of target voted).epoch_voters epoch))
                          i.total (leb→le _ _ enough))
                        (sym (if_true _ _ _ enough) ∙ e'))
                  | inr few ↦ subst (λ u. Next s u) (some_inj (sym (if_false _ _ _ few) ∙ e')) step
                ]
      ]
