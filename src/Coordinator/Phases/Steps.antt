-- ===== src/Coordinator/Phases/Steps.antt =====
-- Every step of the coordinator and of a worker keeps the workers where they may be.
use neu_chain.Prelude.{
  ℕ, ◌≡◌, refl, sym, ap, subst, ◌⊎◌, inl, inr, false, List, [], ◌∷◌, ◌++◌, All, All-push,
  All-replace, All-map_lem, arith,
}
use neu_chain.Coordinator.Phases.{
  ready, finish_read, AriaGlobalState, aria_read, aria_commit, Worker, Phase, assigning,
  broadcasting_read, syncing_read, broadcasting_commit, syncing_commit, System, is_ready, signalled,
  deployed, new_worker, passes, proceeds, Step, acts_passed, acts_left, assigns, assigns_new,
  ends_assignment, sends_read, sees_read, sends_commit, sees_commit, syncs_read, begins_commit,
  syncs_commit, next_epoch, Event, receives, approves, Reach, here, next, hears,
}
use neu_chain.Coordinator.Phases.Invariant.{
  Idle, Reads, HasRead, Commits, IsPassed, IsLeft, IsPassed-Act, IsLeft-Act, Inv,
}

signalled-ready : (w : Worker) (g : AriaGlobalState) → w.state ≡ ready → w ≡ signalled g w
signalled-ready w g e = rw e refl

signalled-busy :
    (w : Worker) (g : AriaGlobalState)
    → is_ready w.state ≡ false
    → record w { signal = g } ≡ signalled g w
signalled-busy w g e = rw e refl

Reads-busy : (w : Worker) → Reads w → is_ready w.state ≡ false
Reads-busy w r = elim r.place [
  | inl (_, e) ↦ ap is_ready e
  | inr (inl (_, e)) ↦ ap is_ready e
  | inr (inr (_, e)) ↦ ap is_ready e
]

signalled_read :
    (w : Worker) → Idle w ⊎ Reads w → Idle (signalled aria_read w) ⊎ Reads (signalled aria_read w)
signalled_read w (inl i) = inl (subst Idle (signalled-ready w aria_read i.is_idle) i)
signalled_read w (inr r) = inr (
    subst Reads (signalled-busy w aria_read (Reads-busy w r))
      (record { has_signal = refl; place = r.place }))

signalled_commit :
    (w : Worker)
    → Idle w ⊎ HasRead w
    → Idle (signalled aria_commit w) ⊎ Commits (signalled aria_commit w)
signalled_commit w (inl i) = inl (subst Idle (signalled-ready w aria_commit i.is_idle) i)
signalled_commit w (inr r) = inr (
    subst Commits (signalled-busy w aria_commit (ap is_ready r.has_state))
      (record { has_signal = refl; has_state = r.has_state; place = inl r.waits }))

seen_read :
    (w : Worker)
    → (w.state ≡ ready) ⊎ (w.state ≡ finish_read)
    → Idle w ⊎ Reads w
    → Idle w ⊎ HasRead w
seen_read w e (inl i) = inl i
seen_read w e (inr r) = inr (record {
  has_signal = r.has_signal;
  waits = ground (arith, r.place);
  has_state = ground (arith, r.place);
})

seen_commit : (w : Worker) → w.state ≡ ready → Idle w ⊎ Commits w → Idle w
seen_commit w e (inl i) = i
seen_commit w e (inr c) = ground (arith, c.has_state)

deployed-Reads : (w : Worker) → w.state ≡ ready → Idle w ⊎ Reads w → Reads (deployed w)
deployed-Reads w e (inl i) = record { has_signal = refl; place = inl (i.waits, refl) }
deployed-Reads w e (inr r) = ground (arith, r.place)

-- The invariant with the phase given by itself.
abbrev pub InvAt : Phase → List Worker → List Worker → Type 0
InvAt p passed left = All (IsPassed p) passed × All (IsLeft p) left

pub Inv-at : (s : System) (p : Phase) → s.phase ≡ p → Inv s → InvAt p s.passed s.left
Inv-at s p e i = subst (λ q. InvAt q s.passed s.left) e (i.passed_ok, i.left_ok)

Inv-from : (s : System) (p : Phase) → s.phase ≡ p → InvAt p s.passed s.left → Inv s
Inv-from s p e i =
    let j = subst (λ q. InvAt q s.passed s.left) (sym e) i in
    record { passed_ok = j.0; left_ok = j.1 }

-- A loop passes one more worker.
passes-Inv :
    (s : System) (p : Phase) (w w' : Worker) (ws : List Worker)
    → s.phase ≡ p
    → s.left ≡ w ∷ ws
    → (IsLeft p w → IsPassed p w')
    → Inv s
    → Inv (passes s w' ws)
passes-Inv s p w w' ws e l f i =
    let (a, b) = Inv-at s p e i in
    let c = subst (All (IsLeft p)) l b in
    Inv-from (passes s w' ws) p e (All-push _ w' s.passed a (f c.0), c.1)

-- A loop ends, and what it has passed is what the next begins with.
proceeds-Inv :
    (s : System) (p q : Phase)
    → s.phase ≡ p
    → ((w : Worker) → IsPassed p w → IsLeft q w)
    → Inv s
    → Inv (proceeds s q)
proceeds-Inv s p q e f i =
    let (a, b) = Inv-at s p e i in record { passed_ok = tt; left_ok = All-map_lem _ _ s.passed f a }

pub Step-Inv : (s u : System) → Inv s → Step s u → Inv u
unfolding IsPassed IsLeft
Step-Inv s u i (acts_passed before after a b l e act) = subst Inv (sym e) (record {
  passed_ok =
      All-replace _ before after a b (IsPassed-Act s.phase a b act)
        (subst (All (IsPassed s.phase)) l i.passed_ok);
  left_ok = i.left_ok;
})
Step-Inv s u i (acts_left before after a b l e act) = subst Inv (sym e) (record {
  passed_ok = i.passed_ok;
  left_ok =
      All-replace _ before after a b (IsLeft-Act s.phase a b act)
        (subst (All (IsLeft s.phase)) l i.left_ok);
})
Step-Inv s u i (assigns before after a p l busy r e) =
    let (x, y) = Inv-at s assigning p i in
    subst Inv (sym e) (
      Inv-from (record s { left = before ++ deployed a ∷ after }) assigning p
        (
          x,
          All-replace _ before after a (deployed a) (λ k. inr (deployed-Reads a r k))
              (subst (All (IsLeft assigning)) l y),
        ))
Step-Inv s u i (assigns_new p busy e) =
    let (x, y) = Inv-at s assigning p i in
    subst Inv (sym e) (
      Inv-from (record s { left = s.left ++ new_worker ∷ [] }) assigning p
        (
          x,
          All-push _ new_worker s.left y
              (inr (record { has_signal = refl; place = inl (refl, refl) })),
        ))
Step-Inv s u i (ends_assignment p late e) =
    let (x, y) = Inv-at s assigning p i in subst Inv (sym e) (record { passed_ok = x; left_ok = y })
Step-Inv s u i (sends_read w ws p l e) =
    subst Inv (sym e) (passes-Inv s broadcasting_read w _ ws p l (signalled_read w) i)
Step-Inv s u i (sees_read w ws p l k e) =
    subst Inv (sym e) (passes-Inv s syncing_read w w ws p l (seen_read w k) i)
Step-Inv s u i (sends_commit w ws p l e) =
    subst Inv (sym e) (passes-Inv s broadcasting_commit w _ ws p l (signalled_commit w) i)
Step-Inv s u i (sees_commit w ws p l k e) =
    subst Inv (sym e) (passes-Inv s syncing_commit w w ws p l (seen_commit w k) i)
Step-Inv s u i (syncs_read p l e) =
    subst Inv (sym e) (proceeds-Inv s broadcasting_read syncing_read p (λ w h. h) i)
Step-Inv s u i (begins_commit p l agreed e) =
    subst Inv (sym e) (proceeds-Inv s syncing_read broadcasting_commit p (λ w h. h) i)
Step-Inv s u i (syncs_commit p l e) =
    subst Inv (sym e) (proceeds-Inv s broadcasting_commit syncing_commit p (λ w h. h) i)
Step-Inv s u i (next_epoch p l e) =
    let j = proceeds-Inv s syncing_commit assigning p (λ w h. inl h) i in
    subst Inv (sym e) (record { passed_ok = j.passed_ok; left_ok = j.left_ok })

Event-Inv : (s u : System) → Inv s → Event s u → Inv u
Event-Inv s u i (receives k h e) =
    subst Inv (sym e) (record { passed_ok = i.passed_ok; left_ok = i.left_ok })
Event-Inv s u i (approves k e) =
    subst Inv (sym e) (record { passed_ok = i.passed_ok; left_ok = i.left_ok })

pub Reach-Inv : {first : ℕ} (s : System) → Reach first s → Inv s
Reach-Inv s here = record { passed_ok = tt; left_ok = tt }
Reach-Inv u (next {s = s} r step) = Step-Inv s u (Reach-Inv s r) step
Reach-Inv u (hears {s = s} r event) = Event-Inv s u (Reach-Inv s r) event
