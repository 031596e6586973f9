-- ===== src/Serial/Order.antt =====
-- The serial order of an epoch's transactions, by what the analysis says of each: first those that
-- read a key which an earlier id writes, by falling ids, then the others, by rising ids.
use mathlib.Core.List.{Perm}
use mathlib.Core.List.Perm
use neu_chain.Prelude.{
  ◌≡◌, ◌≢◌, refl, sym, ap, ◌∙◌, Bool, true, false, inl, inr, List, [], ◌∷◌, ltb, if◌then◌else◌,
  Bool-cases, All, Pairwise, arith,
}
use neu_chain.Serial.{View, apply_writes, Entry, apply_all}
use neu_chain.Serial.Replay.{Unshared, apply_writes_comm}

-- Of different ids.
abbrev pub Distinct : Entry → Entry → Type 0
Distinct a b = a.0 ≢ b.0

module _ (raw : Entry → Bool) where
  abbrev pub goes_before : Entry → Entry → Bool
  goes_before a b =
      if raw a then if raw b then ltb b.0 a.0 else true else if raw b then false else ltb a.0 b.0

  unfoldable pub insert : Entry → List Entry → List Entry
  insert e [] = e ∷ []
  insert e (x ∷ xs) = if goes_before e x then e ∷ x ∷ xs else x ∷ insert e xs

  unfoldable pub serial_order : List Entry → List Entry
  serial_order [] = []
  serial_order (e ∷ es) = insert e (serial_order es)

  abbrev pub Ordered : Entry → Entry → Type 0
  Ordered a b = goes_before a b ≡ true

  Ordered-trans : (a b c : Entry) → Ordered a b → Ordered b c → Ordered a c
  Ordered-trans a b c h k = ground arith

  Ordered-of_not : (a b : Entry) → a.0 ≢ b.0 → goes_before a b ≡ false → Ordered b a
  Ordered-of_not a b ne h = ground arith

  pub All-insert {κ} :
      (P : Entry → Type κ) (e : Entry) (es : List Entry) → P e → All P es → All P (insert e es)
  unfolding insert
  All-insert P e [] p h = (p, tt)
  All-insert P e (x ∷ xs) p h = elim (Bool-cases (goes_before e x)) [
    | inl t ↦ rw t (p, h)
    | inr f ↦ rw f (h.0, All-insert P e xs p h.1)
  ]

  pub All-serial_order {κ} :
      (P : Entry → Type κ) (es : List Entry) → All P es → All P (serial_order es)
  unfolding serial_order
  All-serial_order P [] h = tt
  All-serial_order P (e ∷ es) h = All-insert P e (serial_order es) h.0 (All-serial_order P es h.1)

  All-Ordered :
      (e x : Entry) (xs : List Entry) → Ordered e x → All (Ordered x) xs → All (Ordered e) xs
  All-Ordered e x [] h k = tt
  All-Ordered e x (y ∷ ys) h k = (Ordered-trans e x y h k.0, All-Ordered e x ys h k.1)

  insert-Pairwise :
      (e : Entry) (es : List Entry)
      → All (Distinct e) es
      → Pairwise Ordered es
      → Pairwise Ordered (insert e es)
  unfolding insert
  insert-Pairwise e [] d p = (tt, tt)
  insert-Pairwise e (x ∷ xs) d p = elim (Bool-cases (goes_before e x)) [
    | inl t ↦ rw t ((t, All-Ordered e x xs t p.0), p)
    | inr f ↦
        rw f
          (All-insert (Ordered x) e xs (Ordered-of_not e x d.0 f) p.0, insert-Pairwise e xs d.1 p.1)
  ]

  -- Entries of different ids come out in the serial order.
  pub serial_order-Pairwise :
      (es : List Entry) → Pairwise Distinct es → Pairwise Ordered (serial_order es)
  unfolding serial_order
  serial_order-Pairwise [] d = tt
  serial_order-Pairwise (e ∷ es) d =
      insert-Pairwise e (serial_order es) (All-serial_order (Distinct e) es d.0)
        (serial_order-Pairwise es d.1)

  insert-Distinct :
      (e : Entry) (es : List Entry)
      → All (Distinct e) es
      → Pairwise Distinct es
      → Pairwise Distinct (insert e es)
  unfolding insert
  insert-Distinct e [] d p = (tt, tt)
  insert-Distinct e (x ∷ xs) d p = elim (Bool-cases (goes_before e x)) [
    | inl t ↦ rw t (d, p)
    | inr f ↦
        rw f (All-insert (Distinct x) e xs (λ q. d.0 (sym q)) p.0, insert-Distinct e xs d.1 p.1)
  ]

  pub serial_order-Distinct :
      (es : List Entry) → Pairwise Distinct es → Pairwise Distinct (serial_order es)
  unfolding serial_order
  serial_order-Distinct [] d = tt
  serial_order-Distinct (e ∷ es) d =
      insert-Distinct e (serial_order es) (All-serial_order (Distinct e) es d.0)
        (serial_order-Distinct es d.1)

  apply_all-insert :
      (e : Entry) (es : List Entry) (v : View)
      → All (Unshared e) es
      → apply_all (insert e es) v ≡ apply_all (e ∷ es) v
  unfolding insert apply_all
  apply_all-insert e [] v h = refl
  apply_all-insert e (x ∷ xs) v h = elim (Bool-cases (goes_before e x)) [
    | inl t ↦ rw t
    | inr f ↦ rw f (
        apply_all-insert e xs (apply_writes x.1.writes v) h.1
        ∙ ap (apply_all xs) (apply_writes_comm e x v h.0))
  ]

  -- If no two of them write a key in common, the order makes no difference to the last view.
  pub apply_all-serial_order :
      (es : List Entry) (v : View)
      → Pairwise Unshared es
      → apply_all (serial_order es) v ≡ apply_all es v
  unfolding serial_order apply_all
  apply_all-serial_order [] v h = refl
  apply_all-serial_order (e ∷ es) v h =
      apply_all-insert e (serial_order es) v (All-serial_order (Unshared e) es h.0)
      ∙ apply_all-serial_order es (apply_writes e.1.writes v) h.1

  insert-perm : (e : Entry) (es : List Entry) → Perm (insert e es) (e ∷ es)
  unfolding insert
  insert-perm e [] = Perm.refl (e ∷ [])
  insert-perm e (x ∷ xs) = elim (Bool-cases (goes_before e x)) [
    | inl t ↦ rw t (Perm.refl (e ∷ x ∷ xs))
    | inr f ↦ rw f (Perm.trans (Perm.cons x (insert-perm e xs)) (Perm.swap e x xs))
  ]

  -- The serial order has the same entries.
  pub serial_order-perm : (es : List Entry) → Perm (serial_order es) es
  unfolding serial_order
  serial_order-perm [] = Perm.refl []
  serial_order-perm (e ∷ es) =
      Perm.trans (insert-perm e (serial_order es)) (Perm.cons e (serial_order-perm es))
