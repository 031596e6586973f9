-- ===== src/HashMap.antt =====
-- `HashMap`, include/common/hash_map.h: a map in `N` parts, each with a lock. A key is in the part
-- that its hash selects. The hash function is a parameter; a part, a `std::unordered_map`, is an
-- association list without order, of which only lookup is used.
pub mod Refines
use neu_chain.Prelude.{
  ℕ, zero, suc, ◌+◌, ◌%◌, Bool, true, false, Option, none, some, List, [], ◌∷◌, ◌==◌, if◌then◌else◌,
}

-- `maps[N]`.
abbrev pub HashMap : Type 0 → Type 0 → Type 0
HashMap K V = ℕ → List (K × V)

module _ {K V : Type 0} (eq : K → K → Bool) where
  -- `find`, `erase` and `map[key] = value` of a part.
  unfoldable pub find : K → List (K × V) → Option V
  find k [] = none
  find k ((j, v) ∷ m) = if eq j k then some v else find k m

  unfoldable pub erase : K → List (K × V) → List (K × V)
  erase k [] = []
  erase k ((j, v) ∷ m) = let rest = erase k m in if eq j k then rest else (j, v) ∷ rest

  abbrev pub put : K → V → List (K × V) → List (K × V)
  put k v m = (k, v) ∷ erase k m

  module _ (hash : K → ℕ) (n : ℕ) where
    abbrev pub get_map_ref : K → HashMap K V → List (K × V)
    get_map_ref k h = h (hash k % n)

    abbrev pub set_map : K → List (K × V) → HashMap K V → HashMap K V
    set_map k m h i = if (hash k % n) == i then m else h i

    abbrev pub contains : K → HashMap K V → Bool
    contains k h = elim (find k (get_map_ref k h)) [ none ↦ false | some v ↦ true ]

    unfoldable pub remove : K → HashMap K V → Bool × HashMap K V
    remove k h = elim (find k (get_map_ref k h)) [
      | none ↦ (false, h)
      | some v ↦ (true, set_map k (erase k (get_map_ref k h)) h)
    ]

    unfoldable pub insert : K → V → HashMap K V → Bool × HashMap K V
    insert k v h = elim (find k (get_map_ref k h)) [
      | some w ↦ (false, h)
      | none ↦ (true, set_map k (put k v (get_map_ref k h)) h)
    ]

    -- `operator[]`: a key that is missing is given the default value first.
    unfoldable pub index : V → K → HashMap K V → V × HashMap K V
    index default k h = elim (find k (get_map_ref k h)) [
      | some v ↦ (v, h)
      | none ↦ (default, set_map k (put k default (get_map_ref k h)) h)
    ]

    -- An assignment to what `operator[]` refers to.
    unfoldable pub assign : V → K → V → HashMap K V → HashMap K V
    unfolding index
    assign default k v h =
        let h' = (index default k h).1 in set_map k (put k v (get_map_ref k h')) h'

abbrev pub clear : {K V : Type 0} → HashMap K V → HashMap K V
clear h i = []
