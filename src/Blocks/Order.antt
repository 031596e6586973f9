-- ===== src/Blocks/Order.antt =====
-- The queue of transactions forgets the order in which they have come.
use mathlib.Core.List.{Permᴰ}
use mathlib.Core.List.Permᴰ.{nil, cons, swap, trans}
use neu_chain.Prelude.{◌≡◌, ◌≢◌, refl, sym, ap, ◌∙◌, subst, List, [], ◌∷◌, All, Pairwise, arith}
use neu_chain.Transaction.{Transaction}
use neu_chain.Blocks.Generator.{push_pending, pending_queue}

abbrev pub DistinctIds : List Transaction → Type 0
DistinctIds = Pairwise (λ (t u : Transaction). t.tid ≢ u.tid)

push_pending_comm :
    (t u : Transaction) (l : List Transaction)
    → t.tid ≢ u.tid
    → push_pending t (push_pending u l) ≡ push_pending u (push_pending t l)
unfolding push_pending
push_pending_comm t u [] h = ground arith
push_pending_comm t u (v ∷ l) h = ground (arith, push_pending_comm t u l h)

All-Permᴰ :
    (P : Transaction → Type 0) {ts us : List Transaction} → Permᴰ ts us → All P ts → All P us
All-Permᴰ P nil h = tt
All-Permᴰ P (cons e p) h = (subst P e h.0, All-Permᴰ P p h.1)
All-Permᴰ P (swap e f) (h, (k, r)) = (subst P f k, (subst P e h, r))
All-Permᴰ P (trans p q) h = All-Permᴰ P q (All-Permᴰ P p h)

DistinctIds-Permᴰ : {ts us : List Transaction} → Permᴰ ts us → DistinctIds ts → DistinctIds us
DistinctIds-Permᴰ nil h = tt
DistinctIds-Permᴰ (cons {a = a} {b = b} {l₁ = l} e p) h = (
  All-Permᴰ (λ (u : Transaction). b.tid ≢ u.tid) p
      (subst (λ (x : Transaction). All (λ (u : Transaction). x.tid ≢ u.tid) l) e h.0),
  DistinctIds-Permᴰ p h.1,
)
DistinctIds-Permᴰ (swap {a = a} {b = b} {l = l} e f) ((ab, al), (bl, r)) = (
  (
    λ x. ab (ap (λ (y : Transaction). y.tid) e ∙ sym x ∙ sym (ap (λ (y : Transaction). y.tid) f)),
    subst (λ (x : Transaction). All (λ (u : Transaction). x.tid ≢ u.tid) l) f bl,
  ),
  (subst (λ (x : Transaction). All (λ (u : Transaction). x.tid ≢ u.tid) l) e al, r),
)
DistinctIds-Permᴰ (trans p q) h = DistinctIds-Permᴰ q (DistinctIds-Permᴰ p h)

pub pending_queue-Permᴰ :
    {ts us : List Transaction} → Permᴰ ts us → DistinctIds ts → pending_queue ts ≡ pending_queue us
unfolding pending_queue
pending_queue-Permᴰ nil h = refl
pending_queue-Permᴰ (cons {b = b} {l₁ = l} e p) h =
    ap (λ t. push_pending t (pending_queue l)) e ∙ ap (push_pending b) (pending_queue-Permᴰ p h.1)
pending_queue-Permᴰ (swap {a = a} {b = b} {a' = a'} {l = l} e f) ((ab, _), (_, _)) =
    push_pending_comm a b (pending_queue l) ab
    ∙ ap (λ t. push_pending t (push_pending a (pending_queue l))) f
    ∙ ap (λ t. push_pending a' (push_pending t (pending_queue l))) e
pending_queue-Permᴰ (trans p q) h =
    pending_queue-Permᴰ p h ∙ pending_queue-Permᴰ q (DistinctIds-Permᴰ p h)
