-- ===== src/Consensus/Invariant.antt =====
-- What holds of the consensus state after any messages, in any order: who has voted against whom,
-- who has confirmed which epoch, and which servers are marked.
use text.Mathlib.TextEquality.{eq_iff}
use neu_chain.Prelude.{
  ℕ, ◌≤◌, ◌≡◌, refl, sym, ◌∙◌, subst, ◌⊎◌, inl, inr, true, false, List, ◌∷◌, String, str_eq, ◌==◌,
  ==_iff, length, map, Bool-cases, In, if_true, if_false,
}
use neu_chain.Consensus.{
  ProxyBlock, con, malicious, ProofSet, ControlBlock, set_at, proxy_of, set_proxy, quorum,
}
use neu_chain.Consensus.Members.{Distinct, proxy_of-set_proxy}

-- A message of the kind has been received.
abbrev pub Said : (ProofSet → Type 0) → List ProofSet → Type 0
Said P ms = (m : ProofSet) × In m ms × P m

abbrev pub VotesAgainst : String → String → ℕ → ProofSet → Type 0
VotesAgainst v t e m = (m.type ≡ malicious) × (m.ip ≡ v) × (m.proof ≡ t) × (m.epoch ≡ e)

abbrev pub Confirms : String → ℕ → ProofSet → Type 0
Confirms o e m = (m.type ≡ con) × (m.ip ≡ o) × (m.epoch ≡ e)

pub record ProxyOk (n : ℕ) (ms : List ProofSet) (t : String) (b : ProxyBlock) : Type 0 where
  pub voted : (e : ℕ) (v : String) → In v (b.epoch_voters e) → Said (VotesAgainst v t e) ms
  pub once : (e : ℕ) → Distinct (b.epoch_voters e)
  pub reached : b.is_valid ≡ false → quorum n ≤ length (b.epoch_voters b.first_invalid_epoch)

-- The server is marked from the epoch on, or an earlier one.
abbrev pub MarkedBy : ℕ → ProxyBlock → Type 0
MarkedBy e b = (b.is_valid ≡ false) × (b.first_invalid_epoch ≤ e)

abbrev pub Signalled : ℕ → ProxyBlock → Type 0
Signalled e b = (b.is_valid ≡ false) × (b.first_invalid_epoch ≡ e)

pub record StateOk (n : ℕ) (ms : List ProofSet) (s : ControlBlock) : Type 0 where
  pub started : s.start ≡ true
  pub total : s.total_server_count ≡ n
  pub proxies : (t : String) → ProxyOk n ms t (proxy_of t s)
  pub approved :
      (e : ℕ) (o : String)
      → In o (s.epoch_approve_map e)
      → Said (Confirms o e) ms ⊎ MarkedBy e (proxy_of o s)
  pub approved_once : (e : ℕ) → Distinct (s.epoch_approve_map e)
  pub signalled : (t : String) (e : ℕ) → In (t, e) s.malicious_signals → Signalled e (proxy_of t s)
  pub signalled_once : Distinct (map (λ x. x.0) s.malicious_signals)

-- A server that is marked stays so, from the same epoch on.
abbrev pub Keeps : ControlBlock → ControlBlock → Type 0
Keeps s s' =
    (o : String)
    → (proxy_of o s).is_valid ≡ false
    → ((proxy_of o s').is_valid ≡ false)
      × ((proxy_of o s').first_invalid_epoch ≡ (proxy_of o s).first_invalid_epoch)

-- A fact on all proxies, after one has been given anew.
pub set_proxy-each {κ} :
    (P : String → ProxyBlock → Type κ) (k : String) (b : ProxyBlock) (s : ControlBlock)
    → P k b
    → ((j : String) → P j (proxy_of j s))
    → (j : String) → P j (proxy_of j (set_proxy k b s))
set_proxy-each P k b s h f j = elim (Bool-cases (str_eq k j)) [
  | inl e ↦
      subst (P j) (sym (proxy_of-set_proxy k j b s ∙ if_true (str_eq k j) _ _ e))
        (subst (λ i. P i b) ((eq_iff k j).0 e) h)
  | inr e ↦ subst (P j) (sym (proxy_of-set_proxy k j b s ∙ if_false (str_eq k j) _ _ e)) (f j)
]

pub set_at-each {κ} :
    {A : Type 0} (P : ℕ → A → Type κ) (k : ℕ) (x : A) (f : ℕ → A)
    → P k x
    → ((i : ℕ) → P i (f i))
    → (i : ℕ) → P i (set_at k x f i)
set_at-each P k x f h g i = elim (Bool-cases (k == i)) [
  | inl e ↦ subst (P i) (sym (if_true (k == i) _ _ e)) (subst (λ j. P j x) ((==_iff k i).0 e) h)
  | inr e ↦ subst (P i) (sym (if_false (k == i) _ _ e)) (g i)
]

-- The votes and the mark of a proxy.
abbrev pub SameVotes : ProxyBlock → ProxyBlock → Type 0
SameVotes b c =
    (b.epoch_voters ≡ c.epoch_voters)
    × (b.is_valid ≡ c.is_valid)
    × (b.first_invalid_epoch ≡ c.first_invalid_epoch)

pub Keeps-set_proxy :
    (k : String) (b : ProxyBlock) (s : ControlBlock)
    → ((proxy_of k s).is_valid ≡ false
        → (b.is_valid ≡ false) × (b.first_invalid_epoch ≡ (proxy_of k s).first_invalid_epoch))
    → Keeps s (set_proxy k b s)
Keeps-set_proxy k b s h =
    set_proxy-each
      (λ o c.
        (proxy_of o s).is_valid ≡ false
        → (c.is_valid ≡ false) × (c.first_invalid_epoch ≡ (proxy_of o s).first_invalid_epoch))
      k b s h (λ j e. (e, refl))

Said-later :
    (P : ProofSet → Type 0) (m : ProofSet) (ms : List ProofSet) → Said P ms → Said P (m ∷ ms)
Said-later P m ms (x, at, p) = (x, inr at, p)

ProxyOk-later :
    (n : ℕ) (m : ProofSet) (ms : List ProofSet) (t : String) (b : ProxyBlock)
    → ProxyOk n ms t b
    → ProxyOk n (m ∷ ms) t b
ProxyOk-later n m ms t b i = record {
  voted = λ e v at. Said-later (VotesAgainst v t e) m ms (i.voted e v at);
  once = i.once;
  reached = i.reached;
}

-- A message that changes no vote, no mark and no approval.
pub StateOk-later :
    (n : ℕ) (m : ProofSet) (ms : List ProofSet) (s : ControlBlock)
    → StateOk n ms s
    → StateOk n (m ∷ ms) s
StateOk-later n m ms s i = record {
  started = i.started;
  total = i.total;
  proxies = λ t. ProxyOk-later n m ms t (proxy_of t s) (i.proxies t);
  approved = λ e o at. elim (i.approved e o at) [
    | inl said ↦ inl (Said-later (Confirms o e) m ms said)
    | inr marked ↦ inr marked
  ];
  approved_once = i.approved_once;
  signalled = i.signalled;
  signalled_once = i.signalled_once;
}

-- One proxy given anew, which leaves the marks that there are.
pub StateOk-set_proxy :
    (n : ℕ) (ms : List ProofSet) (k : String) (b : ProxyBlock) (s : ControlBlock)
    → StateOk n ms s
    → ProxyOk n ms k b
    → ((proxy_of k s).is_valid ≡ false
        → (b.is_valid ≡ false) × (b.first_invalid_epoch ≡ (proxy_of k s).first_invalid_epoch))
    → StateOk n ms (set_proxy k b s)
StateOk-set_proxy n ms k b s i ok h =
    let keeps = Keeps-set_proxy k b s h in
    record {
      started = i.started;
      total = i.total;
      proxies = set_proxy-each (ProxyOk n ms) k b s ok i.proxies;
      approved = λ e o at. elim (i.approved e o at) [
        | inl said ↦ inl said
        | inr (marked, from) ↦
            let (m, f) = keeps o marked in inr (m, subst (λ x. x ≤ e) (sym f) from)
      ];
      approved_once = i.approved_once;
      signalled = λ t e at.
          let (marked, from) = i.signalled t e at in let (m, f) = keeps t marked in (m, f ∙ from);
      signalled_once = i.signalled_once;
    }
