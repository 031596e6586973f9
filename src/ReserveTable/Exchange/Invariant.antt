-- ===== src/ReserveTable/Exchange/Invariant.antt =====
-- The invariant of the threads on one register: what each knows of it, and that it only falls.
use neu_chain.Prelude.{
  ℕ, ◌≤◌, ◌≡◌, ◌≢◌, refl, sym, ap, ◌∙◌, subst, ◌⊎◌, inl, inr, List, [], ◌∷◌, ◌++◌, map, All,
  All-map_lem, In, arith,
}
use neu_chain.ReserveTable.Exchange.{
  Place, starting, holding, finished, Thread, Shared, Act, load, keep, exchange, retry, Step, acts,
  Reach, here, next, begin,
}

-- What a thread knows of the register.
abbrev pub Knows : ℕ → ℕ → Place → Type 0
Knows r tid starting = Unit {0}
Knows r tid (holding old) = old ≢ 0 → (r ≢ 0) × (r ≤ old)
Knows r tid finished = (r ≢ 0) × (r ≤ tid)

abbrev pub IsSafe : ℕ → Thread → Type 0
IsSafe r t = (t.tid ≢ 0) × Knows r t.tid t.place

-- The register only falls, once it holds an id.
abbrev pub Falls : ℕ → ℕ → Type 0
Falls r r' = r ≢ 0 → (r' ≢ 0) × (r' ≤ r)

Act-Falls : {r r' : ℕ} {a b : Thread} → a.tid ≢ 0 → Act r a r' b → Falls r r'
Act-Falls h (load p q e) = ground arith
Act-Falls h (keep old p k q e) = ground arith
Act-Falls h (exchange old p k q w e) = ground arith
Act-Falls h (retry old p k q e) = ground arith

Falls-Knows : {r r' : ℕ} (tid : ℕ) (p : Place) → Falls r r' → Knows r tid p → Knows r' tid p
Falls-Knows tid starting f h = tt
Falls-Knows tid (holding old) f h = ground arith
Falls-Knows tid finished f h = ground arith

Falls-IsSafe : {r r' : ℕ} (t : Thread) → Falls r r' → IsSafe r t → IsSafe r' t
Falls-IsSafe t f h = (h.0, Falls-Knows t.tid t.place f h.1)

Act-IsSafe : {r r' : ℕ} {a b : Thread} → b.tid ≡ a.tid → Act r a r' b → IsSafe r a → IsSafe r' b
Act-IsSafe t (load p q e) h = ground arith
Act-IsSafe t (keep old p k q e) h = ground arith
Act-IsSafe t (exchange old p k q w e) h = ground arith
Act-IsSafe t (retry old p k q e) h = ground arith

All-replace :
    {r r' : ℕ} (before after : List Thread) (a b : Thread)
    → Falls r r'
    → (IsSafe r a → IsSafe r' b)
    → All (IsSafe r) (before ++ a ∷ after)
    → All (IsSafe r') (before ++ b ∷ after)
All-replace [] after a b f g h = (g h.0, All-map_lem _ _ after (λ t. Falls-IsSafe t f) h.1)
All-replace (t ∷ ts) after a b f g h = (Falls-IsSafe t f h.0, All-replace ts after a b f g h.1)

All-middle :
    (r : ℕ) (before after : List Thread) (a : Thread)
    → All (IsSafe r) (before ++ a ∷ after)
    → IsSafe r a
All-middle r [] after a h = h.0
All-middle r (t ∷ ts) after a h = All-middle r ts after a h.1

abbrev pub ids : List Thread → List ℕ
ids = map (λ t. t.tid)

ids-replace :
    (before after : List Thread) (a b : Thread)
    → b.tid ≡ a.tid
    → ids (before ++ b ∷ after) ≡ ids (before ++ a ∷ after)
ids-replace [] after a b e = ap (λ n. n ∷ ids after) e
ids-replace (t ∷ ts) after a b e = ap (◌∷◌ t.tid) (ids-replace ts after a b e)

In-ids : (before after : List Thread) (a : Thread) → In a.tid (ids (before ++ a ∷ after))
In-ids [] after a = inl refl
In-ids (t ∷ ts) after a = inr (In-ids ts after a)

-- The register comes from its start or from a thread, and never rises above its start.
abbrev pub Comes : ℕ → List ℕ → ℕ → Type 0
Comes r tids v = (v ≡ r) ⊎ In v tids

pub record Inv (r : ℕ) (tids : List ℕ) (s : Shared) : Type 0 where
  pub safe : All (IsSafe s.register) s.threads
  pub named : ids s.threads ≡ tids
  pub comes : Comes r tids s.register
  pub falls : Falls r s.register

Act-register : {r r' : ℕ} {a b : Thread} → Act r a r' b → (r' ≡ r) ⊎ (r' ≡ a.tid)
Act-register (load p q e) = inl q
Act-register (keep old p k q e) = inl q
Act-register (exchange old p k q w e) = inr w
Act-register (retry old p k q e) = inl q

Step-Inv : {r : ℕ} {tids : List ℕ} {s u : Shared} → Step s u → Inv r tids s → Inv r tids u
Step-Inv {r} {tids} {s} {u} (acts before after a b p q e act) v = record {
  safe = rw q (All-replace before after a b f (Act-IsSafe e act) safe);
  named = rw q (ids-replace before after a b e ∙ ap ids (sym p) ∙ v.named);
  comes = elim (Act-register act) [
    | inl same ↦ rw same v.comes
    | inr own ↦ inr (rw own (subst (In a.tid) (ap ids (sym p) ∙ v.named) (In-ids before after a)))
  ];
  falls = λ h. let k = f (v.falls h).0 in let l = v.falls h in (k.0, omega arith);
}
  where
    safe : All (IsSafe s.register) (before ++ a ∷ after)
    safe = subst (All (IsSafe s.register)) p v.safe

    f : Falls s.register u.register
    f = Act-Falls (All-middle s.register before after a safe).0 act

pub Reach-Inv : {r : ℕ} {tids : List ℕ} {s u : Shared} → Inv r tids s → Reach s u → Inv r tids u
Reach-Inv v here = v
Reach-Inv v (next p st) = Step-Inv st (Reach-Inv v p)

pub begin-Inv : (r : ℕ) (tids : List ℕ) → All (λ n. n ≢ 0) tids → Inv r tids (begin r tids)
unfolding begin
begin-Inv r tids h = record {
  safe = safe tids h;
  named = named tids;
  comes = inl refl;
  falls = λ z. (z, omega arith);
}
  where
    safe :
        (ns : List ℕ)
        → All (λ n. n ≢ 0) ns
        → All (IsSafe r) (map (λ n. record { tid = n; place = starting }) ns)
    safe [] k = tt
    safe (n ∷ ns) k = ((k.0, tt), safe ns k.1)

    named : (ns : List ℕ) → ids (map (λ n. record { tid = n; place = starting }) ns) ≡ ns
    named [] = refl
    named (n ∷ ns) = ap (◌∷◌ n) (named ns)
