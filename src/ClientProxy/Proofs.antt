-- ===== src/ClientProxy/Proofs.antt =====
-- The set of the proofs of an epoch, and the two workers that check a batch.
use neu_chain.Prelude.{
  ◌≡◌, refl, sym, ap, ◌∙◌, subst, inl, inr, true, ◌&&◌, List, [], ◌∷◌, ◌==◌, ==_iff, Bool-cases,
  All, In, if_true, if_false, &&_parts,
}
use neu_chain.Transaction.Wire.{Bytes}
use neu_chain.ClientProxy.{same_bytes}
use neu_chain.ClientProxy.Remote.{has_proof, insert_proof, has_proofs, evens, odds}

pub same_bytes_refl : (a : Bytes) → same_bytes a a ≡ true
unfolding same_bytes
same_bytes_refl [] = refl
same_bytes_refl (x ∷ a) = ap (λ b. b && same_bytes a a) ((==_iff x x).1 refl) ∙ same_bytes_refl a

same_bytes-eq : (a b : Bytes) → same_bytes a b ≡ true → a ≡ b
unfolding same_bytes
same_bytes-eq [] [] h = refl
same_bytes-eq [] (y ∷ b) h = cc
same_bytes-eq (x ∷ a) [] h = cc
same_bytes-eq (x ∷ a) (y ∷ b) h =
    let (p, q) = &&_parts (x == y) (same_bytes a b) h in
    ap (λ z. z ∷ a) ((==_iff x y).0 p) ∙ ap (λ l. y ∷ l) (same_bytes-eq a b q)

has_proof-In : (k : Bytes) (l : List Bytes) → has_proof k l ≡ true → In k l
unfolding has_proof
has_proof-In k [] h = cc
has_proof-In k (j ∷ l) h = elim (Bool-cases (same_bytes j k)) [
  | inl e ↦ inl (sym (same_bytes-eq j k e))
  | inr e ↦ inr (has_proof-In k l (sym (if_false (same_bytes j k) _ _ e) ∙ h))
]

In-has_proof : (k : Bytes) (l : List Bytes) → In k l → has_proof k l ≡ true
unfolding has_proof
In-has_proof k [] i = absurd i
In-has_proof k (j ∷ l) (inl e) =
    if_true (same_bytes j k) _ _ (subst (λ x. same_bytes x k ≡ true) e (same_bytes_refl k))
In-has_proof k (j ∷ l) (inr i) = elim (Bool-cases (same_bytes j k)) [
  | inl e ↦ if_true (same_bytes j k) _ _ e
  | inr e ↦ if_false (same_bytes j k) _ _ e ∙ In-has_proof k l i
]

pub insert_proof-new : (k : Bytes) (l : List Bytes) → (¬ In k l) → insert_proof k l ≡ k ∷ l
unfolding insert_proof
insert_proof-new k l h = elim (Bool-cases (has_proof k l)) [
  | inl e ↦ absurd (h (has_proof-In k l e))
  | inr e ↦ if_false (has_proof k l) _ _ e
]

pub has_proofs-all : (ks l : List Bytes) → All (λ k. In k l) ks → has_proofs ks l ≡ true
unfolding has_proofs
has_proofs-all [] l h = refl
has_proofs-all (k ∷ ks) l h =
    ap (λ b. b && has_proofs ks l) (In-has_proof k l h.0) ∙ has_proofs-all ks l h.1

pub evens-All {κ} : {A : Type 0} (P : A → Type κ) (l : List A) → All P l → All P (evens l)
unfolding evens
evens-All P [] h = tt
evens-All P (x ∷ []) h = h
evens-All P (x ∷ y ∷ l) h = (h.0, evens-All P l h.1.1)

pub odds-All {κ} : {A : Type 0} (P : A → Type κ) (l : List A) → All P l → All P (odds l)
unfolding odds
odds-All P [] h = tt
odds-All P (x ∷ l) h = evens-All P l h.1

-- Between them the workers see all.
pub both-All {κ} :
    {A : Type 0} (P : A → Type κ) (l : List A) → All P (evens l) → All P (odds l) → All P l
unfolding evens odds
both-All P [] a b = tt
both-All P (x ∷ []) a b = a
both-All P (x ∷ y ∷ []) a b = (a.0, (b.0, tt))
both-All P (x ∷ y ∷ z ∷ l) a b = (a.0, both-All P (y ∷ z ∷ l) b a.1)
