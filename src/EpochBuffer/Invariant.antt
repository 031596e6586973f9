-- ===== src/EpochBuffer/Invariant.antt =====
-- What holds of the proxies between any two steps, if transactions are kept until the end of their
-- epoch: the tasks of a worker are the epochs from the current one on, and the queues of the epochs
-- before it are empty.
use neu_chain.Prelude.{
  ℕ, suc, ◌≡◌, ◌≤◌, ◌<◌, refl, sym, ap, ◌∙◌, true, ◌&&◌, List, [], ◌∷◌, ◌++◌, ==_iff, All, Pairwise,
  arith,
}
use neu_chain.Transaction.{Transaction}
use neu_chain.EpochBuffer.{check_epochs, Phase, idle, waiting, emptying, Proxy, System}

-- The numbers from a to before b.
unfoldable pub Consecutive : List ℕ → ℕ → ℕ → Type 0
Consecutive [] a b = a ≡ b
Consecutive (x ∷ l) a b = (x ≡ a) × Consecutive l (suc a) b

pub Consecutive-le : (l : List ℕ) (a b : ℕ) → Consecutive l a b → a ≤ b
unfolding Consecutive
Consecutive-le [] a b h = omega (arith, h)
Consecutive-le (x ∷ l) a b h = omega (arith, Consecutive-le l (suc a) b h.1)

pub Consecutive-snoc :
    (l : List ℕ) (a b : ℕ) → Consecutive l a b → Consecutive (l ++ b ∷ []) a (suc b)
unfolding Consecutive
Consecutive-snoc [] a b h = (sym h, ap suc h)
Consecutive-snoc (x ∷ l) a b h = (h.0, Consecutive-snoc l (suc a) b h.1)

-- The tasks of a worker, where g is the epoch that all are processing.
abbrev pub WorkerOk : ℕ → Phase → List ℕ → ℕ → Type 0
WorkerOk g idle w ended = Consecutive w g ended
WorkerOk g (waiting e) w ended = (e ≡ g) × Consecutive w (suc g) ended
WorkerOk g (emptying e) w ended = (suc e ≡ g) × Consecutive w g ended

pub WorkerOk-le : (g : ℕ) (p : Phase) (w : List ℕ) (ended : ℕ) → WorkerOk g p w ended → g ≤ ended
WorkerOk-le g idle w ended h = Consecutive-le w g ended h
WorkerOk-le g (waiting e) w ended h = omega (arith, Consecutive-le w (suc g) ended h.1)
WorkerOk-le g (emptying e) w ended h = Consecutive-le w g ended h.1

-- The epochs that a worker has emptied.
abbrev pub Past : ℕ → Phase → ℕ → Type 0
Past g idle e = e < g
Past g (waiting k) e = e < g
Past g (emptying k) e = suc e < g

pub Past-lt : (g : ℕ) (p : Phase) (e : ℕ) → Past g p e → e < g
Past-lt g idle e h = h
Past-lt g (waiting k) e h = h
Past-lt g (emptying k) e h = omega arith

pub lt-Past : (g : ℕ) (p : Phase) (e : ℕ) → suc e < g → Past g p e
lt-Past g idle e h = omega arith
lt-Past g (waiting k) e h = omega arith
lt-Past g (emptying k) e h = h

pub record ProxyOk (g : ℕ) (p : Proxy) : Type 0 where
  pub worker_ok : WorkerOk g p.worker p.buffer.workload p.epoch
  pub labelled : (e : ℕ) → All (λ (t : Transaction). t.epoch ≡ e) (p.buffer.queues e)
  pub emptied : (e : ℕ) → Past g p.worker e → p.buffer.queues e ≡ []

abbrev pub Ascending : List Transaction → Type 0
Ascending = Pairwise (λ (t u : Transaction). t.epoch ≤ u.epoch)

pub record SystemOk (n : ℕ) (s : System) : Type 0 where
  pub each : (i : ℕ) → i < n → ProxyOk s.manager.global_processing_epoch (s.proxies i)
  pub before : All (λ (t : Transaction). t.epoch < s.manager.global_processing_epoch) s.handled
  pub in_order : Ascending s.handled

pub check_epochs-All :
    (e : ℕ) (ts : List Transaction)
    → All (λ (t : Transaction). t.epoch ≡ e) ts
    → check_epochs e ts ≡ true
unfolding check_epochs
check_epochs-All e [] h = refl
check_epochs-All e (t ∷ ts) h =
    ap (λ b. b && check_epochs e ts) ((==_iff t.epoch e).1 h.0) ∙ check_epochs-All e ts h.1

-- More transactions, of one epoch, behind those of earlier ones.
pub Ascending-append :
    (g e : ℕ) (l ts : List Transaction)
    → g ≡ suc e
    → All (λ (t : Transaction). t.epoch < g) l
    → Ascending l
    → All (λ (t : Transaction). t.epoch ≡ e) ts
    → Ascending (l ++ ts) × All (λ (t : Transaction). t.epoch < g) (l ++ ts)
Ascending-append g e (t ∷ l) ts h before up same =
    let (up', before') = Ascending-append g e l ts h before.1 up.1 same in
    ((later l up.0, up'), (before.0, before'))
  where
    at_end :
        (us : List Transaction)
        → All (λ (u : Transaction). u.epoch ≡ e) us
        → All (λ (u : Transaction). t.epoch ≤ u.epoch) us
    at_end [] k = tt
    at_end (u ∷ us) k = (omega (arith, before.0, k.0), at_end us k.1)

    later :
        (us : List Transaction)
        → All (λ (u : Transaction). t.epoch ≤ u.epoch) us
        → All (λ (u : Transaction). t.epoch ≤ u.epoch) (us ++ ts)
    later [] k = at_end ts same
    later (u ∷ us) k = (k.0, later us k.1)
Ascending-append g e [] ts h before up same = (alike ts same, below ts same)
  where
    same_as :
        (t : Transaction) (us : List Transaction)
        → t.epoch ≡ e
        → All (λ (u : Transaction). u.epoch ≡ e) us
        → All (λ (u : Transaction). t.epoch ≤ u.epoch) us
    same_as t [] p k = tt
    same_as t (u ∷ us) p k = (omega (arith, k.0), same_as t us p k.1)

    alike : (us : List Transaction) → All (λ (u : Transaction). u.epoch ≡ e) us → Ascending us
    alike [] k = tt
    alike (u ∷ us) k = (same_as u us k.0 k.1, alike us k.1)

    below :
        (us : List Transaction)
        → All (λ (u : Transaction). u.epoch ≡ e) us
        → All (λ (u : Transaction). u.epoch < g) us
    below [] k = tt
    below (u ∷ us) k = (omega (arith, k.0), below us k.1)
