-- ===== src/Coordinator/Phases/Barrier.antt =====
-- What the phases are for: reading and committing never overlap, and the server waits for nothing
-- but what comes from outside.
use neu_chain.Prelude.{
  ℕ, ◌≤◌, Bool-cases, ltb, ◌≡◌, ◌≢◌, refl, subst, ◌⊎◌, inl, inr, Bool, true, false, List, [], ◌∷◌,
  ◌++◌, All, All-In, In-append_split, In, arith,
}
use neu_chain.Coordinator.Phases.{
  reading, committing, Worker, start_reading, finish_reading, start_committing, finish_committing,
  Phase, assigning, broadcasting_read, syncing_read, broadcasting_commit, syncing_commit, System,
  Step, acts_left, ends_assignment, sends_read, sees_read, sends_commit, sees_commit, syncs_read,
  begins_commit, syncs_commit, next_epoch, Reach,
}
use neu_chain.Coordinator.Phases.Invariant.{Idle, Reads, Commits, IsPassed, IsLeft, Inv}
use neu_chain.Coordinator.Phases.Steps.{Inv-at, Reach-Inv}

abbrev pub workers : System → List Worker
workers s = s.passed ++ s.left

-- Before the broadcast of the commit no worker commits, and from then on none reads.
commits_in : Phase → Bool
commits_in broadcasting_commit = true
commits_in syncing_commit = true
commits_in _ = false

KeepsOut : Bool → Worker → Type 0
KeepsOut true w = w.line ≢ reading
KeepsOut false w = w.line ≢ committing

passed-KeepsOut : (p : Phase) (w : Worker) → IsPassed p w → KeepsOut (commits_in p) w
unfolding IsPassed KeepsOut commits_in
passed-KeepsOut assigning w (inl i) = λ h. ground (arith, i.waits)
passed-KeepsOut assigning w (inr r) = λ h. ground (arith, r.place)
passed-KeepsOut broadcasting_read w (inl i) = λ h. ground (arith, i.waits)
passed-KeepsOut broadcasting_read w (inr r) = λ h. ground (arith, r.place)
passed-KeepsOut syncing_read w (inl i) = λ h. ground (arith, i.waits)
passed-KeepsOut syncing_read w (inr r) = λ h. ground (arith, r.waits)
passed-KeepsOut broadcasting_commit w (inl i) = λ h. ground (arith, i.waits)
passed-KeepsOut broadcasting_commit w (inr c) = λ h. ground (arith, c.place)
passed-KeepsOut syncing_commit w i = λ h. ground (arith, i.waits)

left-KeepsOut : (p : Phase) (w : Worker) → IsLeft p w → KeepsOut (commits_in p) w
unfolding IsLeft KeepsOut commits_in
left-KeepsOut assigning w (inl i) = λ h. ground (arith, i.waits)
left-KeepsOut assigning w (inr r) = λ h. ground (arith, r.place)
left-KeepsOut broadcasting_read w (inl i) = λ h. ground (arith, i.waits)
left-KeepsOut broadcasting_read w (inr r) = λ h. ground (arith, r.place)
left-KeepsOut syncing_read w (inl i) = λ h. ground (arith, i.waits)
left-KeepsOut syncing_read w (inr r) = λ h. ground (arith, r.place)
left-KeepsOut broadcasting_commit w (inl i) = λ h. ground (arith, i.waits)
left-KeepsOut broadcasting_commit w (inr r) = λ h. ground (arith, r.waits)
left-KeepsOut syncing_commit w (inl i) = λ h. ground (arith, i.waits)
left-KeepsOut syncing_commit w (inr c) = λ h. ground (arith, c.place)

all-KeepsOut :
    (s : System) (w : Worker) → Inv s → In w (workers s) → KeepsOut (commits_in s.phase) w
all-KeepsOut s w i h = elim (In-append_split w s.passed s.left h) [
  | inl k ↦ passed-KeepsOut s.phase w (All-In _ w s.passed i.passed_ok k)
  | inr k ↦ left-KeepsOut s.phase w (All-In _ w s.left i.left_ok k)
]

apart :
    (c : Bool) (a b : Worker) → KeepsOut c a → KeepsOut c b → a.line ≡ reading → b.line ≢ committing
unfolding KeepsOut
apart true a b h k r = absurd (h r)
apart false a b h k r = k

-- The two phases of an epoch never overlap: however the coordinator and any number of workers
-- interleave, while one worker executes its list no worker commits.
pub Reach-apart :
    {first : ℕ} (s : System) (a b : Worker)
    → Reach first s
    → In a (workers s)
    → In b (workers s)
    → a.line ≡ reading
    → b.line ≢ committing
Reach-apart s a b r i j =
    let v = Reach-Inv s r in
    apart (commits_in s.phase) a b (all-KeepsOut s a v i) (all-KeepsOut s b v j)

abbrev CanStep : System → Type 0
CanStep s = (u : System) × Step s u

read_step :
    (s : System) (w : Worker) (ws : List Worker)
    → s.phase ≡ syncing_read
    → s.left ≡ w ∷ ws
    → Idle w ⊎ Reads w
    → CanStep s
read_step s w ws p l (inl i) = (_, sees_read w ws p l (inl i.is_idle) refl)
read_step s w ws p l (inr r) = elim r.place [
  | inl (at, st) ↦ (_, acts_left [] ws w _ l refl (start_reading at r.has_signal refl))
  | inr (inl (at, st)) ↦ (_, acts_left [] ws w _ l refl (finish_reading at refl))
  | inr (inr (at, st)) ↦ (_, sees_read w ws p l (inr st) refl)
]

commit_step :
    (s : System) (w : Worker) (ws : List Worker)
    → s.phase ≡ syncing_commit
    → s.left ≡ w ∷ ws
    → Idle w ⊎ Commits w
    → CanStep s
commit_step s w ws p l (inl i) = (_, sees_commit w ws p l i.is_idle refl)
commit_step s w ws p l (inr c) = elim c.place [
  | inl at ↦ (_, acts_left [] ws w _ l refl (start_committing at c.has_signal refl))
  | inr at ↦ (_, acts_left [] ws w _ l refl (finish_committing at refl))
]

-- The coordinator and its workers never block each other: in every state that can come up, one of
-- them can go on, unless the coordinator waits for what comes from outside: for a transaction of a
-- later epoch while it assigns workloads, or, when all workers have read, for the consensus on the
-- epoch.
pub Reach-CanStep :
    {first : ℕ} (s : System)
    → Reach first s
    → ((u : System) × Step s u)
      ⊎ ((s.phase ≡ assigning) × (s.received ≤ s.epoch))
      ⊎ ((s.phase ≡ syncing_read) × (s.left ≡ []) × (s.approved s.epoch ≡ false))
unfolding IsLeft
Reach-CanStep s r = by_phase s.phase refl s.left refl
  where
    Goes : Type 0
    Goes =
        CanStep s
        ⊎ ((s.phase ≡ assigning) × (s.received ≤ s.epoch))
        ⊎ ((s.phase ≡ syncing_read) × (s.left ≡ []) × (s.approved s.epoch ≡ false))

    assignment : s.phase ≡ assigning → (b : Bool) → ltb s.epoch s.received ≡ b → Goes
    assignment p true e = inl (_, ends_assignment p (ground (arith, e)) refl)
    assignment p false e = inr (inl (p, ground (arith, e)))

    by_phase : (p : Phase) → s.phase ≡ p → (ws : List Worker) → s.left ≡ ws → Goes
    by_phase assigning p ws l = assignment p (ltb s.epoch s.received) refl
    by_phase broadcasting_read p [] l = inl (_, syncs_read p l refl)
    by_phase broadcasting_read p (w ∷ ws) l = inl (_, sends_read w ws p l refl)
    by_phase syncing_read p [] l = elim (Bool-cases (s.approved s.epoch)) [
      | inl agreed ↦ inl (_, begins_commit p l agreed refl)
      | inr open_still ↦ inr (inr (p, l, open_still))
    ]
    by_phase syncing_read p (w ∷ ws) l = inl (
        read_step s w ws p l
          (subst (All (IsLeft syncing_read)) l (Inv-at s syncing_read p (Reach-Inv s r)).1).0)
    by_phase broadcasting_commit p [] l = inl (_, syncs_commit p l refl)
    by_phase broadcasting_commit p (w ∷ ws) l = inl (_, sends_commit w ws p l refl)
    by_phase syncing_commit p [] l = inl (_, next_epoch p l refl)
    by_phase syncing_commit p (w ∷ ws) l = inl (
        commit_step s w ws p l
          (subst (All (IsLeft syncing_commit)) l (Inv-at s syncing_commit p (Reach-Inv s r)).1).0)
