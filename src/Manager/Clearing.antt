-- ===== src/Manager/Clearing.antt =====
-- Which epochs the communication module is told to clear when an epoch has finished.
use mathlib.Core.List.{append_assoc, append-nil}
use neu_chain.Prelude.{
  ℕ, zero, suc, ◌+◌, ◌-◌, ◌≡◌, refl, sym, ap, ◌∙◌, subst, inl, inr, ◌||◌, List, [], ◌∷◌, ◌++◌, ltb,
  ==_iff, if◌then◌else◌, Bool-cases, arith,
}
use neu_chain.Transaction.{Transaction}
use neu_chain.Manager.{
  Manager, set_queue, categorize_epoch, non_categorize_epoch, sort_epoch, clear_epochs,
  epoch_finished_callback,
}

-- So many numbers, from the one after the first on.
abbrev pub following : ℕ → ℕ → List ℕ
following c zero = []
following c (suc n) = (c + 1) ∷ following (c + 1) n

record Clears (n : ℕ) (m m' : Manager) : Type 0 where
  pub cleared_all : m'.cleared ≡ m.cleared ++ following m.cleaned_epoch n
  pub cleaned : m'.cleaned_epoch ≡ m.cleaned_epoch + n
  pub block : m'.pending_block ≡ m.pending_block

clear_epochs-Clears :
    (n saved : ℕ) (m : Manager) → n ≡ saved - m.cleaned_epoch → Clears n m (clear_epochs n saved m)
unfolding clear_epochs
clear_epochs-Clears zero saved m e = record {
  cleared_all = sym (append-nil m.cleared);
  cleaned = omega arith;
  block = refl;
}
clear_epochs-Clears (suc n) saved m e =
    let c = m.cleaned_epoch + 1 in
    let rest =
      clear_epochs-Clears n saved (record m { cleaned_epoch = c; cleared = m.cleared ++ c ∷ [] })
        (omega arith) in
    subst (Clears (suc n) m) (sym (goes_on _ m)) (record {
      cleared_all = rest.cleared_all ∙ append_assoc m.cleared (c ∷ []) (following c n);
      cleaned = rest.cleaned ∙ omega arith;
      block = rest.block;
    })
  where
    goes_on : (a b : Manager) → (if ltb m.cleaned_epoch saved then a else b) ≡ a
    goes_on a b = ground arith

sort_epoch-kept :
    (finished : ℕ) (m : Manager)
    → ((sort_epoch finished m).cleared ≡ m.cleared)
      × ((sort_epoch finished m).cleaned_epoch ≡ m.cleaned_epoch)
unfolding sort_epoch
sort_epoch-kept finished m =
    elim (Bool-cases (m.categorize_transaction || m.reusing_abort_transaction)) [
      | inl e ↦
          (rw (e, sort_epoch, categorize_epoch) refl, rw (e, sort_epoch, categorize_epoch) refl)
      | inr e ↦ (
        rw (e, sort_epoch, non_categorize_epoch) refl,
        rw (e, sort_epoch, non_categorize_epoch) refl,
      )
    ]

set_queue_self :
    (e : ℕ) (ts : List Transaction) (f : ℕ → List Transaction) → set_queue e ts f e ≡ ts
set_queue_self e ts f = rw ((==_iff e e).1 refl) refl

-- The end of an epoch: the manager goes on to the epoch after it, with an empty queue for the one
-- that has finished and no transaction left for the next block. It tells the communication module to
-- clear the epochs after the last that was cleared, up to the last that is stored, each once and in
-- their order.
pub epoch_finished_callback-Clears :
    (finished saved : ℕ) (m : Manager)
    → let m' = (epoch_finished_callback finished saved m).1 in
      let n = saved - m.cleaned_epoch in
      (m'.processing_epoch ≡ finished + 1)
      × (m'.epoch_tx_buffer finished ≡ [])
      × (m'.pending_block ≡ [])
      × (m'.cleared ≡ m.cleared ++ following m.cleaned_epoch n)
      × (m'.cleaned_epoch ≡ m.cleaned_epoch + n)
unfolding epoch_finished_callback
epoch_finished_callback-Clears finished saved m =
    let s = sort_epoch finished m in
    let (told, last) = sort_epoch-kept finished m in
    let c =
      clear_epochs-Clears (saved - m.cleaned_epoch) saved (record s { pending_block = [] })
        (ap (λ k. saved - k) (sym last)) in
    (
      refl,
      set_queue_self finished []
          (clear_epochs (saved - m.cleaned_epoch) saved
            (record s { pending_block = [] })).epoch_tx_buffer,
      c.block,
      c.cleared_all
          ∙ ap (λ t. t ++ following s.cleaned_epoch (saved - m.cleaned_epoch)) told
          ∙ ap (λ k. m.cleared ++ following k (saved - m.cleaned_epoch)) last,
      c.cleaned ∙ ap (λ k. k + (saved - m.cleaned_epoch)) last,
    )
