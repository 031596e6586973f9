-- ===== src/EpochBuffer/History.antt =====
-- No transaction is lost: each that a proxy has pushed has been handled or stands in a queue.
use neu_chain.Prelude.{
  ℕ, ◌≡◌, ◌<◌, refl, sym, subst, ◌⊎◌, inl, inr, Bool, false, List, [], ◌∷◌, ◌++◌, ◌==◌, ==_iff, In,
  In-append_left, In-append_right, if_true, some, some_inj, guarded,
}
use neu_chain.Transaction.{Transaction}
use neu_chain.Consensus.{set_at}
use neu_chain.Consensus.Invariant.{set_at-each}
use neu_chain.EpochBuffer.{
  Buffer, check_epochs, sync_empty_buffer, push_queue, push_to_buffer, finish_task, signal_finished,
  idle, Proxy, System, Step, pushes, ends, arrives, releases, finishes, Reach, starts, steps,
}

-- What the proxies have pushed on the way to a state, the last one first.
unfoldable pub pushed :
    {eager : Bool} {n start : ℕ} {s : System} → Reach eager n start s → List Transaction
pushed starts = []
pushed (steps r (pushes i t lt at e)) = t ∷ pushed r
pushed (steps r (ends i lt)) = pushed r
pushed (steps r (arrives i epoch lt at e)) = pushed r
pushed (steps r (releases all)) = pushed r
pushed (steps r (finishes i epoch lt at e)) = pushed r

set_at_self : {A : Type 0} (k : ℕ) (x : A) (f : ℕ → A) → set_at k x f k ≡ x
set_at_self k x f = if_true (k == k) x (f k) ((==_iff k k).1 refl)

module _ (n : ℕ) (u : Transaction) where
  abbrev Queued : (ℕ → Proxy) → Type 0
  Queued ps = (i : ℕ) × (i < n) × In u ((ps i).buffer.queues u.epoch)

  abbrev pub Held : System → Type 0
  Held s = In u s.handled ⊎ Queued s.proxies

  set_at-Queued :
      (k : ℕ) (p : Proxy) (ps : ℕ → Proxy)
      → (In u ((ps k).buffer.queues u.epoch) → In u (p.buffer.queues u.epoch))
      → Queued ps
      → Queued (set_at k p ps)
  set_at-Queued k p ps h (i, lt, at) = (
    i,
    lt,
    set_at-each
        (λ j (q : Proxy). In u ((ps j).buffer.queues u.epoch) → In u (q.buffer.queues u.epoch)) k p
        ps h (λ j a. a) i at,
  )

  push_queue-In :
      (t : Transaction) (b : Buffer)
      → In u (b.queues u.epoch)
      → In u ((push_queue t b).queues u.epoch)
  push_queue-In t b =
      set_at-each (λ e l. In u (b.queues e) → In u l) t.epoch (b.queues t.epoch ++ t ∷ []) b.queues
        (In-append_left u (b.queues t.epoch) (t ∷ [])) (λ e a. a) u.epoch

  -- A queue is handed over when it is emptied.
  finish-Held :
      (i epoch : ℕ) (s : System)
      → Held s
      → Held (record s {
        manager = signal_finished s.manager;
        proxies =
            set_at i
              (record (s.proxies i) {
                buffer = record (s.proxies i).buffer {
                  queues = set_at epoch [] (s.proxies i).buffer.queues;
                };
                worker = idle;
              })
              s.proxies;
        handled = s.handled ++ (s.proxies i).buffer.queues epoch;
      })
  finish-Held i epoch s (inl a) =
      inl (In-append_left u s.handled ((s.proxies i).buffer.queues epoch) a)
  finish-Held i epoch s (inr (j, lt, at)) =
      elim (set_at-each
        (λ k (q : Proxy).
          In u ((s.proxies k).buffer.queues u.epoch) → Now ⊎ In u (q.buffer.queues u.epoch))
        i _ s.proxies emptied (λ k a. inr a) j at) [
          | inl now ↦ inl now
          | inr left ↦ inr (j, lt, left)
        ]
    where
      Now : Type 0
      Now = In u (s.handled ++ (s.proxies i).buffer.queues epoch)

      emptied :
          In u ((s.proxies i).buffer.queues u.epoch)
          → Now ⊎ In u (set_at epoch [] (s.proxies i).buffer.queues u.epoch)
      emptied =
          set_at-each (λ e l. In u ((s.proxies i).buffer.queues e) → Now ⊎ In u l) epoch []
            (s.proxies i).buffer.queues
            (λ a. inl (In-append_right u s.handled ((s.proxies i).buffer.queues epoch) a))
            (λ e a. inr a) u.epoch

  -- What is pushed is in the queue of its epoch.
  pushes-Queued :
      (k : ℕ) (t : Transaction) (s : System) (b : Buffer) {ts : List Transaction}
      → k < n
      → u ≡ t
      → push_to_buffer false t s.manager (s.proxies k).buffer ≡ some (ts, b)
      → Queued (set_at k (record (s.proxies k) { buffer = b }) s.proxies)
  unfolding push_to_buffer
  pushes-Queued k t s b lt same e =
      let p : Proxy = record (s.proxies k) { buffer = b } in
      let l : List Transaction = (s.proxies k).buffer.queues t.epoch ++ t ∷ [] in
      let found : In t ((push_queue t (s.proxies k).buffer).queues t.epoch) =
        subst (In t) (sym (set_at_self t.epoch l (s.proxies k).buffer.queues))
          (In-append_right t ((s.proxies k).buffer.queues t.epoch) (t ∷ []) (inl refl)) in
      let kept : In t (b.queues t.epoch) =
        subst (λ (o : List Transaction × Buffer). In t (o.1.queues t.epoch)) (some_inj e) found in
      (
        k,
        lt,
        subst (λ (q : Proxy). In u (q.buffer.queues u.epoch)) (sym (set_at_self k p s.proxies))
            (subst (λ v. In v (b.queues v.epoch)) (sym same) kept),
      )

  Step-Held : {s t : System} → Step false n s t → Held s → Held t
  unfolding push_to_buffer finish_task sync_empty_buffer
  Step-Held {s = s} (pushes i t {ts = ts} lt at e) (inl a) = inl (In-append_left u s.handled ts a)
  Step-Held {s = s} (pushes i t lt at e) (inr q) = inr (
      set_at-Queued i _ s.proxies
        (λ a.
          subst (λ (o : List Transaction × Buffer). In u (o.1.queues u.epoch)) (some_inj e)
            (push_queue-In t (s.proxies i).buffer a))
        q)
  Step-Held (ends i lt) (inl a) = inl a
  Step-Held {s = s} (ends i lt) (inr q) = inr (set_at-Queued i _ s.proxies (λ a. a) q)
  Step-Held (arrives i epoch lt at e) (inl a) = inl a
  Step-Held {s = s} (arrives i epoch lt at e) (inr q) = inr (set_at-Queued i _ s.proxies (λ a. a) q)
  Step-Held (releases all) h = h
  Step-Held {s = s} (finishes i epoch lt at e) h =
      let (_, out) = guarded (check_epochs epoch ((s.proxies i).buffer.queues epoch)) e in
      subst
        (λ (o : List Transaction × Buffer). Held (record s {
          manager = signal_finished s.manager;
          proxies = set_at i (record (s.proxies i) { buffer = o.1; worker = idle }) s.proxies;
          handled = s.handled ++ o.0;
        }))
        out (finish-Held i epoch s h)

module _ (n start : ℕ) where
  pub Reach-Held :
      {s : System} (r : Reach false n start s) (u : Transaction) → In u (pushed r) → Held n u s
  unfolding pushed
  Reach-Held starts u i = absurd i
  Reach-Held (steps {s = s} r (pushes k t {b = b} lt at e)) u (inl same) =
      inr (pushes-Queued n u k t s b lt same e)
  Reach-Held (steps {s = s} r (pushes k t lt at e)) u (inr i) =
      Step-Held n u (pushes {s = s} k t lt at e) (Reach-Held r u i)
  Reach-Held (steps {s = s} r (ends k lt)) u i =
      Step-Held n u (ends {s = s} k lt) (Reach-Held r u i)
  Reach-Held (steps {s = s} r (arrives k epoch lt at e)) u i =
      Step-Held n u (arrives {s = s} k epoch lt at e) (Reach-Held r u i)
  Reach-Held (steps {s = s} r (releases all)) u i =
      Step-Held n u (releases {s = s} all) (Reach-Held r u i)
  Reach-Held (steps {s = s} r (finishes k epoch lt at e)) u i =
      Step-Held n u (finishes {s = s} k epoch lt at e) (Reach-Held r u i)
