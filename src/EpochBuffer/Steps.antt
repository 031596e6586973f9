-- ===== src/EpochBuffer/Steps.antt =====
-- Every step of the proxies keeps the invariant, if transactions are kept until the end of their
-- epoch.
use mathlib.Core.List.{append-nil}
use neu_chain.Prelude.{
  ℕ, suc, ◌≡◌, ◌≤◌, ◌<◌, refl, sym, ap, ◌∙◌, subst, inl, inr, false, List, [], ◌∷◌, ◌++◌, ◌==◌,
  Bool-cases, All, if_true, if_false, some_inj, guarded, arith,
}
use neu_chain.Transaction.{Transaction}
use neu_chain.Consensus.{set_at}
use neu_chain.Consensus.Invariant.{set_at-each}
use neu_chain.EpochBuffer.{
  Buffer, check_epochs, sync_empty_buffer, push_queue, push_to_buffer, finish_task, Phase, idle,
  waiting, emptying, released, signal_finished, Proxy, System, Step, pushes, ends, arrives,
  releases, finishes,
}
use neu_chain.EpochBuffer.Invariant.{
  Consecutive, Consecutive-snoc, WorkerOk, WorkerOk-le, Past, Past-lt, ProxyOk, SystemOk,
  Ascending-append,
}

All-snoc :
    (P : Transaction → Type 0) (l : List Transaction) (t : Transaction)
    → All P l
    → P t
    → All P (l ++ t ∷ [])
All-snoc P [] t h p = (p, tt)
All-snoc P (u ∷ l) t h p = (h.0, All-snoc P l t h.1 p)

push_queue-Ok :
    (g : ℕ) (p : Proxy) (t : Transaction)
    → t.epoch ≡ p.epoch
    → ProxyOk g p
    → ProxyOk g (record p { buffer = push_queue t p.buffer })
push_queue-Ok g p t e k = record {
  worker_ok = k.worker_ok;
  labelled =
      set_at-each (λ i l. All (λ (u : Transaction). u.epoch ≡ i) l) t.epoch
        (p.buffer.queues t.epoch ++ t ∷ []) p.buffer.queues
        (All-snoc (λ (u : Transaction). u.epoch ≡ t.epoch) (p.buffer.queues t.epoch) t
          (k.labelled t.epoch) refl)
        k.labelled;
  emptied = λ i past.
      if_false (t.epoch == i) _ _ (
        other t.epoch i g
          (subst (λ x. g ≤ x) (sym e)
            (WorkerOk-le g p.worker p.buffer.workload p.epoch k.worker_ok))
          (Past-lt g p.worker i past))
      ∙ k.emptied i past;
}
  where
    other : (a i g : ℕ) → g ≤ a → i < g → (a == i) ≡ false
    other a i g h l = ground arith

finish-Ok :
    (g e : ℕ) (p : Proxy)
    → p.worker ≡ emptying e
    → ProxyOk g p
    → ProxyOk g (record p {
      buffer = record p.buffer { queues = set_at e [] p.buffer.queues };
      worker = idle;
    })
finish-Ok g e p at k =
    let (now, tasks) = subst (λ w. WorkerOk g w p.buffer.workload p.epoch) at k.worker_ok in
    record {
      worker_ok = tasks;
      labelled =
          set_at-each (λ i l. All (λ (u : Transaction). u.epoch ≡ i) l) e [] p.buffer.queues tt
            k.labelled;
      emptied = λ i h. elim (Bool-cases (e == i)) [
        | inl same ↦ if_true (e == i) _ _ same
        | inr other ↦
            if_false (e == i) _ _ other
            ∙ k.emptied i (subst (λ w. Past g w i) (sym at) (earlier e i g now other h))
      ];
    }
  where
    earlier : (e i g : ℕ) → suc e ≡ g → (e == i) ≡ false → i < g → suc i < g
    earlier e i g now other h = ground arith

release-Ok :
    (g e : ℕ) (p : Proxy)
    → p.worker ≡ waiting e
    → ProxyOk g p
    → ProxyOk (suc g) (record p { worker = released p.worker })
release-Ok g e p at k =
    let (now, tasks) = subst (λ w. WorkerOk g w p.buffer.workload p.epoch) at k.worker_ok in
    subst (λ w. ProxyOk (suc g) (record p { worker = released w })) (sym at)
      (record {
        worker_ok = (ap suc now, tasks);
        labelled = k.labelled;
        emptied = λ i h. k.emptied i (subst (λ w. Past g w i) (sym at) (omega arith));
      })

module _ (n : ℕ) where
  -- One proxy given anew.
  set_proxy-Ok :
      (s : System) (k : ℕ) (p : Proxy)
      → SystemOk n s
      → (k < n → ProxyOk s.manager.global_processing_epoch p)
      → (i : ℕ) → i < n
      → ProxyOk s.manager.global_processing_epoch (set_at k p s.proxies i)
  set_proxy-Ok s k p ok h =
      set_at-each (λ i q. i < n → ProxyOk s.manager.global_processing_epoch q) k p s.proxies h
        ok.each

  pub Step-Ok : {s t : System} → Step false n s t → SystemOk n s → SystemOk n t
  unfolding push_to_buffer finish_task sync_empty_buffer Consecutive
  Step-Ok {s = s} (pushes i t lt at e) ok =
      let out = some_inj e in
      subst
        (λ (o : List Transaction × Buffer). SystemOk n (record s {
          proxies = set_at i (record (s.proxies i) { buffer = o.1 }) s.proxies;
          handled = s.handled ++ o.0;
        }))
        out
        (subst
          (λ l. SystemOk n (record s {
            proxies =
                set_at i (record (s.proxies i) { buffer = push_queue t (s.proxies i).buffer })
                  s.proxies;
            handled = l;
          }))
          (sym (append-nil s.handled))
          (record {
            each = set_proxy-Ok s i _ ok (λ _. push_queue-Ok _ (s.proxies i) t at (ok.each i lt));
            before = ok.before;
            in_order = ok.in_order;
          }))
  Step-Ok {s = s} (ends i lt) ok =
      let k = ok.each i lt in
      let g = s.manager.global_processing_epoch in
      record {
        each = set_proxy-Ok s i _ ok (λ _. record {
          worker_ok = ended (s.proxies i).worker (s.proxies i) g k.worker_ok;
          labelled = k.labelled;
          emptied = k.emptied;
        });
        before = ok.before;
        in_order = ok.in_order;
      }
    where
      ended :
          (w : Phase) (p : Proxy) (g : ℕ)
          → WorkerOk g w p.buffer.workload p.epoch
          → WorkerOk g w (p.buffer.workload ++ p.epoch ∷ []) (suc p.epoch)
      ended idle p g h = Consecutive-snoc p.buffer.workload g p.epoch h
      ended (waiting e) p g h = (h.0, Consecutive-snoc p.buffer.workload (suc g) p.epoch h.1)
      ended (emptying e) p g h = (h.0, Consecutive-snoc p.buffer.workload g p.epoch h.1)
  Step-Ok {s = s} (arrives i epoch lt at e) ok =
      let k = ok.each i lt in
      let g = s.manager.global_processing_epoch in
      let tasks =
        subst (λ w. Consecutive w g (s.proxies i).epoch) e
          (subst (λ w. WorkerOk g w (s.proxies i).buffer.workload (s.proxies i).epoch) at
            k.worker_ok) in
      record {
        each = set_proxy-Ok s i _ ok (λ _. record {
          worker_ok = tasks;
          labelled = k.labelled;
          emptied = λ j h. k.emptied j (subst (λ w. Past g w j) (sym at) h);
        });
        before = ok.before;
        in_order = ok.in_order;
      }
  Step-Ok {s = s} (releases all) ok = record {
    each = λ i lt. let (e, at) = all i lt in release-Ok _ e (s.proxies i) at (ok.each i lt);
    before = later s.handled ok.before;
    in_order = ok.in_order;
  }
    where
      later :
          (l : List Transaction)
          → All (λ (t : Transaction). t.epoch < s.manager.global_processing_epoch) l
          → All (λ (t : Transaction). t.epoch < suc s.manager.global_processing_epoch) l
      later [] h = tt
      later (t ∷ l) h = (omega (arith, h.0), later l h.1)
  Step-Ok {s = s} (finishes i epoch lt at e) ok =
      let k = ok.each i lt in
      let g = s.manager.global_processing_epoch in
      let p = s.proxies i in
      let (_, out) = guarded (check_epochs epoch (p.buffer.queues epoch)) e in
      let (now, _) = subst (λ w. WorkerOk g w p.buffer.workload p.epoch) at k.worker_ok in
      let (up, before) =
        Ascending-append g epoch s.handled (p.buffer.queues epoch) (sym now) ok.before ok.in_order
          (k.labelled epoch) in
      subst
        (λ (o : List Transaction × Buffer). SystemOk n (record s {
          manager = signal_finished s.manager;
          proxies = set_at i (record p { buffer = o.1; worker = idle }) s.proxies;
          handled = s.handled ++ o.0;
        }))
        out
        (record {
          each = set_proxy-Ok s i _ ok (λ _. finish-Ok g epoch p at k);
          before = before;
          in_order = up;
        })
