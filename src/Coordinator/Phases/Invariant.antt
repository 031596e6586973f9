-- ===== src/Coordinator/Phases/Invariant.antt =====
-- In every reachable state the workers are where the phase of the coordinator allows them to be.
use neu_chain.Prelude.{◌≡◌, ◌≢◌, refl, sym, subst, ◌⊎◌, inl, inr, All, arith}
use neu_chain.Coordinator.Phases.{
  ready, assigned, finish_read, aria_read, aria_commit, exit, waiting_read, reading, waiting_commit,
  committing, Worker, Act, start_reading, finish_reading, start_committing, finish_committing,
  stop_before_read, stop_before_commit, Phase, assigning, broadcasting_read, syncing_read,
  broadcasting_commit, syncing_commit, System,
}

-- No task: it waits for a signal that it does not have.
pub record Idle (w : Worker) : Type 0 where
  pub is_idle : w.state ≡ ready
  pub waits : w.line ≡ waiting_read
  pub no_read : w.signal ≢ aria_read
  pub no_exit : w.signal ≢ exit

-- It is to read, reads, or has read.
pub record Reads (w : Worker) : Type 0 where
  pub has_signal : w.signal ≡ aria_read
  pub place :
      ((w.line ≡ waiting_read) × (w.state ≡ assigned))
      ⊎ ((w.line ≡ reading) × (w.state ≡ assigned))
      ⊎ ((w.line ≡ waiting_commit) × (w.state ≡ finish_read))

pub record HasRead (w : Worker) : Type 0 where
  pub has_signal : w.signal ≡ aria_read
  pub waits : w.line ≡ waiting_commit
  pub has_state : w.state ≡ finish_read

pub record Commits (w : Worker) : Type 0 where
  pub has_signal : w.signal ≡ aria_commit
  pub has_state : w.state ≡ finish_read
  pub place : (w.line ≡ waiting_commit) ⊎ (w.line ≡ committing)

unfoldable pub IsPassed : Phase → Worker → Type 0
IsPassed assigning w = Idle w ⊎ Reads w
IsPassed broadcasting_read w = Idle w ⊎ Reads w
IsPassed syncing_read w = Idle w ⊎ HasRead w
IsPassed broadcasting_commit w = Idle w ⊎ Commits w
IsPassed syncing_commit w = Idle w

unfoldable pub IsLeft : Phase → Worker → Type 0
IsLeft assigning w = Idle w ⊎ Reads w
IsLeft broadcasting_read w = Idle w ⊎ Reads w
IsLeft syncing_read w = Idle w ⊎ Reads w
IsLeft broadcasting_commit w = Idle w ⊎ HasRead w
IsLeft syncing_commit w = Idle w ⊎ Commits w

-- What a worker does keeps it where it may be.
Idle-Act : (a b : Worker) → Idle a → ¬ Act a b
Idle-Act a b i (start_reading l s e) = absurd (i.no_read s)
Idle-Act a b i (stop_before_read l s e) = absurd (i.no_exit s)
Idle-Act a b i (finish_reading l e) = ground (arith, i.waits)
Idle-Act a b i (start_committing l s e) = ground (arith, i.waits)
Idle-Act a b i (finish_committing l e) = ground (arith, i.waits)
Idle-Act a b i (stop_before_commit l s e) = ground (arith, i.waits)

Reads-Act : (a b : Worker) → Reads a → Act a b → Reads b
Reads-Act a b r (start_reading l s e) =
    subst Reads (sym e) (record { has_signal = s; place = ground (arith, r.place) })
Reads-Act a b r (finish_reading l e) =
    subst Reads (sym e) (record { has_signal = r.has_signal; place = inr (inr (refl, refl)) })
Reads-Act a b r (start_committing l s e) = ground (arith, r.has_signal)
Reads-Act a b r (finish_committing l e) = ground (arith, r.place)
Reads-Act a b r (stop_before_read l s e) = ground (arith, r.has_signal)
Reads-Act a b r (stop_before_commit l s e) = ground (arith, r.has_signal)

HasRead-Act : (a b : Worker) → HasRead a → ¬ Act a b
HasRead-Act a b r (start_reading l s e) = ground (arith, r.waits)
HasRead-Act a b r (stop_before_read l s e) = ground (arith, r.waits)
HasRead-Act a b r (finish_reading l e) = ground (arith, r.waits)
HasRead-Act a b r (start_committing l s e) = ground (arith, r.has_signal)
HasRead-Act a b r (finish_committing l e) = ground (arith, r.waits)
HasRead-Act a b r (stop_before_commit l s e) = ground (arith, r.has_signal)

Commits-Act : (a b : Worker) → Commits a → Act a b → Idle b ⊎ Commits b
Commits-Act a b c (start_reading l s e) = ground (arith, c.has_signal)
Commits-Act a b c (stop_before_read l s e) = ground (arith, c.has_signal)
Commits-Act a b c (finish_reading l e) = ground (arith, c.place)
Commits-Act a b c (start_committing l s e) =
    inr
      (subst Commits (sym e) (record { has_signal = s; has_state = c.has_state; place = inr refl }))
Commits-Act a b c (finish_committing l e) = inl (
    subst Idle (sym e) (record {
      is_idle = refl;
      waits = refl;
      no_read = λ h. ground (arith, c.has_signal);
      no_exit = λ h. ground (arith, c.has_signal);
    }))
Commits-Act a b c (stop_before_commit l s e) = ground (arith, c.has_signal)

pub IsLeft-Act : (p : Phase) (a b : Worker) → Act a b → IsLeft p a → IsLeft p b
unfolding IsLeft
IsLeft-Act assigning a b act (inl i) = absurd (Idle-Act a b i act)
IsLeft-Act assigning a b act (inr r) = inr (Reads-Act a b r act)
IsLeft-Act broadcasting_read a b act (inl i) = absurd (Idle-Act a b i act)
IsLeft-Act broadcasting_read a b act (inr r) = inr (Reads-Act a b r act)
IsLeft-Act syncing_read a b act (inl i) = absurd (Idle-Act a b i act)
IsLeft-Act syncing_read a b act (inr r) = inr (Reads-Act a b r act)
IsLeft-Act broadcasting_commit a b act (inl i) = absurd (Idle-Act a b i act)
IsLeft-Act broadcasting_commit a b act (inr r) = absurd (HasRead-Act a b r act)
IsLeft-Act syncing_commit a b act (inl i) = absurd (Idle-Act a b i act)
IsLeft-Act syncing_commit a b act (inr c) = Commits-Act a b c act

pub IsPassed-Act : (p : Phase) (a b : Worker) → Act a b → IsPassed p a → IsPassed p b
unfolding IsPassed
IsPassed-Act assigning a b act (inl i) = absurd (Idle-Act a b i act)
IsPassed-Act assigning a b act (inr r) = inr (Reads-Act a b r act)
IsPassed-Act broadcasting_read a b act (inl i) = absurd (Idle-Act a b i act)
IsPassed-Act broadcasting_read a b act (inr r) = inr (Reads-Act a b r act)
IsPassed-Act syncing_read a b act (inl i) = absurd (Idle-Act a b i act)
IsPassed-Act syncing_read a b act (inr r) = absurd (HasRead-Act a b r act)
IsPassed-Act broadcasting_commit a b act (inl i) = absurd (Idle-Act a b i act)
IsPassed-Act broadcasting_commit a b act (inr c) = Commits-Act a b c act
IsPassed-Act syncing_commit a b act i = absurd (Idle-Act a b i act)

pub record Inv (s : System) : Type 0 where
  pub passed_ok : All (IsPassed s.phase) s.passed
  pub left_ok : All (IsLeft s.phase) s.left
