-- ===== src/EpochBuffer/Order.antt =====
-- The transactions of all proxies are handled epoch by epoch.
use neu_chain.Prelude.{
  ℕ, zero, suc, ◌≡◌, ◌≤◌, ◌<◌, refl, sym, subst, ◌⊎◌, inl, inr, false, some, List, [], ◌∷◌, All, In,
  Bool-cases, ◌==◌, ==_iff, if_true, arith,
}
use neu_chain.Transaction.{Transaction}
use neu_chain.EpochBuffer.{
  Buffer, check_epochs, sync_empty_buffer, finish_task, Phase, idle, waiting, emptying, Proxy,
  System, Reach, starts, steps,
}
use neu_chain.EpochBuffer.Invariant.{
  Consecutive, WorkerOk, WorkerOk-le, lt-Past, ProxyOk, SystemOk, Ascending, check_epochs-All,
}
use neu_chain.EpochBuffer.Steps.{Step-Ok}
use neu_chain.EpochBuffer.History.{pushed, Reach-Held}

module _ (n start : ℕ) where
  Reach-SystemOk : {s : System} → Reach false n start s → SystemOk n s
  unfolding Consecutive
  Reach-SystemOk starts = record {
    each = λ i lt. record { worker_ok = refl; labelled = λ e. tt; emptied = λ e h. refl };
    before = tt;
    in_order = tt;
  }
  Reach-SystemOk (steps r st) = Step-Ok n st (Reach-SystemOk r)

  In-before :
      (g : ℕ) (t : Transaction) (l : List Transaction)
      → All (λ (u : Transaction). u.epoch < g) l
      → In t l
      → t.epoch < g
  In-before g t (u ∷ l) h (inl e) = subst (λ (x : Transaction). x.epoch < g) (sym e) h.0
  In-before g t (u ∷ l) h (inr i) = In-before g t l h.1 i
  In-before g t [] h i = absurd i

  finish_task-Ok :
      (g e : ℕ) (p : Proxy)
      → ProxyOk g p
      → (o : List Transaction × Buffer) × (finish_task false e p.buffer ≡ some o)
  unfolding finish_task sync_empty_buffer
  finish_task-Ok g e p k = (
    _,
    if_true (check_epochs e (p.buffer.queues e)) _ _
        (check_epochs-All e (p.buffer.queues e) (k.labelled e)),
  )

  -- If transactions are kept until the end of their epoch, they are handled epoch by epoch, whatever
  -- the proxies and their workers do first: the transactions that have been handled ascend by epoch,
  -- and once one of an epoch has been handled, every one that any proxy has pushed for an earlier
  -- epoch has been handled too, the queues of the earlier epochs are empty, and each proxy has ended
  -- them, so that it pushes no more for them. No check fails where a worker empties a queue.
  pub Reach-Ascending :
      (s : System)
      → (r : Reach false n start s)
      → Ascending s.handled
        × ((t u : Transaction)
            → In t s.handled
            → In u (pushed r)
            → u.epoch < t.epoch
            → In u s.handled)
        × ((t : Transaction) (i e : ℕ)
            → In t s.handled
            → i < n
            → e < t.epoch
            → ((s.proxies i).buffer.queues e ≡ []) × (e < (s.proxies i).epoch))
        × ((i e : ℕ)
            → i < n
            → (s.proxies i).worker ≡ emptying e
            → (o : List Transaction × Buffer) × (finish_task false e (s.proxies i).buffer ≡ some o))
  Reach-Ascending s r =
      let ok = Reach-SystemOk r in
      let g = s.manager.global_processing_epoch in
      (
        ok.in_order,
        λ t u at i h. elim (Reach-Held n start r u i) [
          | inl done ↦ done
          | inr (j, lt, queued) ↦
              let now = In-before g t s.handled ok.before at in
              absurd (
                subst (In u)
                  ((ok.each j lt).emptied u.epoch
                    (lt-Past g (s.proxies j).worker u.epoch (omega arith)))
                  queued)
        ],
        λ t i e at lt h.
            let now = In-before g t s.handled ok.before at in
            let k = ok.each i lt in
            (
              k.emptied e (lt-Past g (s.proxies i).worker e (omega arith)),
              behind e g (s.proxies i).epoch t.epoch h now (
                  WorkerOk-le g (s.proxies i).worker (s.proxies i).buffer.workload
                    (s.proxies i).epoch k.worker_ok),
            ),
        λ i e lt at. finish_task-Ok g e (s.proxies i) (ok.each i lt),
      )
    where
      behind : (e g b t : ℕ) → e < t → t < g → g ≤ b → e < b
      behind e g b t h now le = omega arith

  -- A worker that can go on.
  abbrev pub CanGo : Proxy → Type 0
  CanGo p =
      ((e : ℕ) × (l : List ℕ) × (p.worker ≡ idle) × (p.buffer.workload ≡ e ∷ l))
      ⊎ ((e : ℕ) × (o : List Transaction × Buffer) × (p.worker ≡ emptying e)
          × (finish_task false e p.buffer ≡ some o))

  abbrev Waits : Proxy → Type 0
  Waits p = (e : ℕ) × (p.worker ≡ waiting e)

  tasks_left :
      (w : List ℕ) (a b : ℕ) → Consecutive w a b → a < b → (e : ℕ) × (l : List ℕ) × (w ≡ e ∷ l)
  unfolding Consecutive
  tasks_left [] a b h lt = absurd (omega (arith, h))
  tasks_left (e ∷ l) a b h lt = (e, l, refl)

  goes_or_stays : (g : ℕ) (p : Proxy) → ProxyOk g p → g < p.epoch → CanGo p ⊎ Waits p
  goes_or_stays g p k ended = go p.worker refl
    where
      go : (w : Phase) → p.worker ≡ w → CanGo p ⊎ Waits p
      go idle at =
          let (e, l, left) =
            tasks_left p.buffer.workload g p.epoch
              (subst (λ w. WorkerOk g w p.buffer.workload p.epoch) at k.worker_ok) ended in
          inl (inl (e, l, at, left))
      go (waiting e) at = inr (e, at)
      go (emptying e) at = let (o, done) = finish_task-Ok g e p k in inl (inr (e, o, at, done))

  -- If transactions are kept until the end of their epoch, the workers never block each other: as
  -- soon as every proxy has ended the epoch that is being processed, some worker can take its next task, or do the rest of the one that it has, or all
  -- wait at the barrier and can leave it.
  pub Reach-CanGo :
      (s : System)
      → Reach false n start s
      → ((i : ℕ) → i < n → s.manager.global_processing_epoch < (s.proxies i).epoch)
      → ((i : ℕ) × (i < n) × CanGo (s.proxies i))
        ⊎ ((i : ℕ) → i < n → (e : ℕ) × ((s.proxies i).worker ≡ waiting e))
  Reach-CanGo s r ended = search_upto n (λ i lt. lt)
    where
      ok : SystemOk n s
      ok = Reach-SystemOk r

      search_upto :
          (k : ℕ)
          → ((i : ℕ) → i < k → i < n)
          → ((i : ℕ) × (i < n) × CanGo (s.proxies i)) ⊎ ((i : ℕ) → i < k → Waits (s.proxies i))
      search_upto zero h = inr (λ i lt. absurd (omega arith))
      search_upto (suc k) h =
          let last = h k (omega arith) in
          elim (search_upto k (λ i lt. h i (omega arith))) [
            | inl found ↦ inl found
            | inr all ↦
                elim (goes_or_stays s.manager.global_processing_epoch (s.proxies k) (ok.each k last)
                  (ended k last)) [
                    | inl can ↦ inl (k, last, can)
                    | inr waits ↦ inr (λ i lt. elim (Bool-cases (i == k)) [
                      | inl e ↦ subst (λ j. Waits (s.proxies j)) (sym ((==_iff i k).0 e)) waits
                      | inr e ↦ all i (ground arith)
                    ])
                  ]
          ]
