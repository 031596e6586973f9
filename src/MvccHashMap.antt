-- ===== src/MvccHashMap.antt =====
-- `MVCCHashMap`, include/common/mvcc_hash_map.h: to each key a list of versions with their values,
-- in parts like those of `HashMap`. The hash function is a parameter.
pub mod Refines
pub mod Vacuum
pub mod Loops
pub mod Meaning
use Prim.Native.Nat.{Ordering}
use Prim.Native.String.{compare}
use mathlib.Core.List.{reverse}
use neu_chain.Prelude.{
  ℕ, suc, String, Bool, true, false, not, Option, none, some, List, [], ◌∷◌, str_eq, length,
  if◌then◌else◌,
}
use neu_chain.HashMap.{HashMap, find, erase, put, get_map_ref, set_map}

-- `MappedValueType`: the versions of a key, the newest first.
abbrev pub Versions : Type 0 → Type 0
Versions V = List (String × V)

abbrev pub MvccHashMap : Type 0 → Type 0 → Type 0
MvccHashMap K V = HashMap K (Versions V)

-- `<` of two versions.
abbrev pub str_ltb : String → String → Bool
str_ltb a b = elim (compare a b) [ Ordering.lt ↦ true | _ ↦ false ]

abbrev pub map? : {A B : Type 0} → (A → B) → Option A → Option B
map? f none = none
map? f (some a) = some (f a)

-- The loops over the versions of a key.
module _ {V : Type 0} where
  abbrev pub is_empty : Versions V → Bool
  is_empty [] = true
  is_empty (x ∷ l) = false

  unfoldable pub has_version : String → Versions V → Bool
  has_version v [] = false
  has_version v ((u, x) ∷ l) = if str_eq u v then true else has_version v l

  -- None where no version is erased.
  unfoldable pub erase_version : String → Versions V → Option (Versions V)
  erase_version v [] = none
  erase_version v ((u, x) ∷ l) =
      let rest = map? (λ l'. (u, x) ∷ l') (erase_version v l) in if str_eq u v then some l else rest

  unfoldable pub version_value : String → Versions V → Option V
  version_value v [] = none
  version_value v ((u, x) ∷ l) = if str_eq u v then some x else version_value v l

  unfoldable pub older_value : String → Versions V → Option V
  older_value v [] = none
  older_value v ((u, x) ∷ l) = if str_ltb u v then some x else older_value v l

  -- A store through the pointer that `version_value` gives.
  unfoldable pub store_version : String → V → Versions V → Versions V
  store_version v y [] = []
  store_version v y ((u, x) ∷ l) =
      let rest = (u, x) ∷ store_version v y l in if str_eq u v then (u, y) ∷ l else rest

  -- The loop goes from the last version to the first: here from the first of the reversed list.
  unfoldable pub erase_others : String → Versions V → ℕ × Versions V
  erase_others v [] = (0, [])
  erase_others v ((u, x) ∷ l) =
      let rest = erase_others v l in
      if not (str_eq u v) then (suc rest.0, rest.1) else (0, (u, x) ∷ l)

  unfoldable pub vacuum_versions : String → Versions V → ℕ × Versions V
  unfolding erase_others
  vacuum_versions v l = let (size, l') = erase_others v (reverse l) in (size, reverse l')

  unfoldable pub keep_latest : Versions V → ℕ × Versions V
  keep_latest [] = (0, [])
  keep_latest (x ∷ l) = (length l, x ∷ [])

module _ {K V : Type 0} (eq : K → K → Bool) (hash : K → ℕ) (n : ℕ) where
  abbrev pub versions? : K → MvccHashMap K V → Option (Versions V)
  versions? k h = find eq k (get_map_ref eq hash n k h)

  -- A change of the list that the part has for a key.
  abbrev pub set_versions : K → Versions V → MvccHashMap K V → MvccHashMap K V
  set_versions k l h = set_map eq hash n k (put eq k l (get_map_ref eq hash n k h)) h

  unfoldable pub contains_key : K → MvccHashMap K V → Bool
  contains_key k h = elim (versions? k h) [ none ↦ false | some l ↦ not (is_empty l) ]

  unfoldable pub contains_key_version : K → String → MvccHashMap K V → Bool
  contains_key_version k v h = elim (versions? k h) [ none ↦ false | some l ↦ has_version v l ]

  unfoldable pub remove_key : K → MvccHashMap K V → Bool × MvccHashMap K V
  remove_key k h = elim (versions? k h) [
    | none ↦ (false, h)
    | some l ↦ (true, set_map eq hash n k (erase eq k (get_map_ref eq hash n k h)) h)
  ]

  unfoldable pub remove_key_version : K → String → MvccHashMap K V → Bool × MvccHashMap K V
  remove_key_version k v h = elim (versions? k h) [
    | none ↦ (false, h)
    | some l ↦ elim (erase_version v l) [
      | none ↦ (false, h)
      | some l' ↦ (true, set_versions k l' h)
    ]
  ]

  -- The new version stands at the front, with the default value. The reference that is returned is
  -- to this value.
  unfoldable pub insert_key_version_holder : V → K → String → MvccHashMap K V → MvccHashMap K V
  insert_key_version_holder default k v h = elim (versions? k h) [
    | none ↦ set_versions k ((v, default) ∷ []) h
    | some l ↦ set_versions k ((v, default) ∷ l) h
  ]

  unfoldable pub version_count : K → MvccHashMap K V → ℕ
  version_count k h = elim (versions? k h) [ none ↦ 0 | some l ↦ length l ]

  -- A null pointer is none.
  unfoldable pub get_key_version : K → String → MvccHashMap K V → Option V
  get_key_version k v h = elim (versions? k h) [ none ↦ none | some l ↦ version_value v l ]

  unfoldable pub get_key_version_prev : K → String → MvccHashMap K V → Option V
  get_key_version_prev k v h = elim (versions? k h) [ none ↦ none | some l ↦ older_value v l ]

  -- A store through the pointer that `get_key_version` gives.
  unfoldable pub set_key_version : K → String → V → MvccHashMap K V → MvccHashMap K V
  set_key_version k v x h = elim (versions? k h) [
    | none ↦ h
    | some l ↦ set_versions k (store_version v x l) h
  ]

  unfoldable pub vacuum_key_versions : K → String → MvccHashMap K V → ℕ × MvccHashMap K V
  vacuum_key_versions k v h = elim (versions? k h) [
    | none ↦ (0, h)
    | some l ↦ let (size, l') = vacuum_versions v l in (size, set_versions k l' h)
  ]

  unfoldable pub vacuum_key_keep_latest : K → MvccHashMap K V → ℕ × MvccHashMap K V
  vacuum_key_keep_latest k h = elim (versions? k h) [
    | none ↦ (0, h)
    | some l ↦ let (size, l') = keep_latest l in (size, set_versions k l' h)
  ]
