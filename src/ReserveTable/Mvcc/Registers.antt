-- ===== src/ReserveTable/Mvcc/Registers.antt =====
-- A register of the table over an `MVCCHashMap`, by the key and the table that it is for.
use text.Mathlib.TextEquality.{eq_iff}
use neu_chain.Prelude.{
  ℕ, ◌≡◌, refl, sym, ap, ◌∙◌, inl, inr, Bool, true, false, ◌&&◌, Option, some, [], ◌∷◌, String,
  str_eq, if◌then◌else◌, Key, same_key, same_key_refl, Bool-cases, Option-cases, if_true, if_false,
  arith,
}
use neu_chain.HashMap.Refines.{value_or}
use neu_chain.MvccHashMap.{Versions, version_value, store_version}
use neu_chain.MvccHashMap.Refines.{versions, get_key_version_lem, insert_lem, set_lem}
use neu_chain.ReserveTable.{reserve_register}
use neu_chain.ReserveTable.Mvcc.{
  Registers, parts, get_register, insert_register, set_register, reserve_version,
}

version_value-store_version :
    (u v : String) (x old : ℕ) (l : Versions ℕ)
    → version_value v l ≡ some old
    → version_value u (store_version v x l) ≡ (if str_eq v u then some x else version_value u l)
unfolding version_value store_version
version_value-store_version u v x old [] h = cc
version_value-store_version u v x old ((w, y) ∷ l) h =
    ground (arith, eq_iff w v, eq_iff v u, eq_iff w u, version_value-store_version u v x old l)

if_else :
    (c : Bool) (x : Option ℕ) {y z : Option ℕ} → y ≡ z → (if c then x else y) ≡ (if c then x else z)
if_else c x e = ap (λ w. if c then x else w) e

same : (a b : Bool) → b ≡ true → (x y : Option ℕ) → (if a then x else y) ≡ (if a && b then x else y)
same a b e x y = ground arith

other : (a b : Bool) → b ≡ false → (x y : Option ℕ) → y ≡ (if a && b then x else y)
other a b e x y = ground arith

module _ (hash : String → ℕ) where
  abbrev register_list : String → Registers → Versions ℕ
  register_list k t = versions str_eq eq_iff hash parts k t

  get_register_lem :
      (k : Key) (t : Registers) → get_register hash k t ≡ version_value k.0 (register_list k.1 t)
  unfolding get_register
  get_register_lem k t = get_key_version_lem str_eq eq_iff hash parts k.1 t k.0

  -- A store through a pointer that is not null.
  get-set_register :
      (j k : Key) (x old : ℕ) (t : Registers)
      → get_register hash k t ≡ some old
      → get_register hash j (set_register hash k x t)
        ≡ (if same_key k j then some x else get_register hash j t)
  unfolding set_register same_key version_value
  get-set_register j k x old t h =
      get_register_lem j (set_register hash k x t)
      ∙ ap (version_value j.0) (set_lem str_eq eq_iff hash parts k.1 j.1 t k.0 x)
      ∙ elim (Bool-cases (str_eq k.1 j.1)) [
        | inl e ↦
            ap (version_value j.0) (if_true (str_eq k.1 j.1) _ _ e)
            ∙ version_value-store_version j.0 k.0 x old (register_list k.1 t)
                (sym (get_register_lem k t) ∙ h)
            ∙ if_else (str_eq k.0 j.0) (some x) (
                ap (λ i. version_value j.0 (register_list i t)) ((eq_iff k.1 j.1).0 e)
                ∙ sym (get_register_lem j t))
            ∙ same (str_eq k.0 j.0) (str_eq k.1 j.1) e (some x) _
        | inr e ↦
            ap (version_value j.0) (if_false (str_eq k.1 j.1) _ _ e)
            ∙ sym (get_register_lem j t)
            ∙ other (str_eq k.0 j.0) (str_eq k.1 j.1) e (some x) _
      ]

  get-insert_register :
      (j k : Key) (t : Registers)
      → get_register hash j (insert_register hash k t)
        ≡ (if same_key k j then some 0 else get_register hash j t)
  unfolding insert_register same_key version_value
  get-insert_register j k t =
      get_register_lem j (insert_register hash k t)
      ∙ ap (version_value j.0) (insert_lem str_eq eq_iff hash parts k.1 j.1 t 0 k.0)
      ∙ elim (Bool-cases (str_eq k.1 j.1)) [
        | inl e ↦
            ap (version_value j.0) (if_true (str_eq k.1 j.1) _ _ e)
            ∙ if_else (str_eq k.0 j.0) (some 0) (
                ap (λ i. version_value j.0 (register_list i t)) ((eq_iff k.1 j.1).0 e)
                ∙ sym (get_register_lem j t))
            ∙ same (str_eq k.0 j.0) (str_eq k.1 j.1) e (some 0) _
        | inr e ↦
            ap (version_value j.0) (if_false (str_eq k.1 j.1) _ _ e)
            ∙ sym (get_register_lem j t)
            ∙ other (str_eq k.0 j.0) (str_eq k.1 j.1) e (some 0) _
      ]

  -- A reservation leaves a register for its key, and no change at another.
  pub get-reserve_version :
      (j k : Key) (tid : ℕ) (t : Registers)
      → get_register hash j (reserve_version hash tid k t) ≡ (
          if same_key k j
          then some (reserve_register tid (value_or 0 (get_register hash k t)))
          else get_register hash j t)
  unfolding reserve_version
  get-reserve_version j k tid t = elim (Option-cases (get_register hash k t)) [
    | inl e ↦
        rw (e, reserve_version)
          (get-set_register j k (reserve_register tid 0) 0 (insert_register hash k t)
              (get-insert_register k k t ∙ if_true (same_key k k) _ _ (same_key_refl k))
            ∙ if_same (same_key k j) _ _ _ _ (get-insert_register j k t))
    | inr (old, e) ↦
        rw (e, reserve_version) (get-set_register j k (reserve_register tid old) old t e)
  ]
    where
      if_same :
          (c : Bool) (x y z w : Option ℕ)
          → w ≡ (if c then z else y)
          → (if c then x else w) ≡ (if c then x else y)
      if_same true x y z w e = refl
      if_same false x y z w e = e
