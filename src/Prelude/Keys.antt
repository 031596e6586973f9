-- ===== src/Prelude/Keys.antt =====
-- The key of a stored value: the table's name and the key in it.
use Prim.Native.String.{String}
use mathlib.Core.Path.{◌≡◌, refl, ap₂}
use mathlib.Core.Logic.{◌⊎◌, inl, inr, ◌≢◌}
use mathlib.Core.Bool.{Bool, true, false, ◌&&◌}
use native.Mathlib.Omega.{arith}
use mathlib.Core.List.{List, [], ◌∷◌}
use text.Mathlib.TextEquality.{eq_iff}
use neu_chain.Prelude.Tests.{str_eq, if◌then◌else◌, &&_parts}
use neu_chain.Prelude.Lists.{In}

pub str_eq_ne : (a b : String) → a ≢ b → str_eq a b ≡ false
str_eq_ne a b h = ground (arith, (eq_iff a b).0)

pub ne_of_str_eq : (a b : String) → str_eq a b ≡ false → a ≢ b
ne_of_str_eq a b h e = ground (arith, (eq_iff a b).1 e)

abbrev pub Key : Type 0
Key = String × String

unfoldable pub same_key : Key → Key → Bool
same_key a b = str_eq a.0 b.0 && str_eq a.1 b.1

pub same_key→eq : (a b : Key) → same_key a b ≡ true → a ≡ b
unfolding same_key
same_key→eq a b h =
    let both = &&_parts (str_eq a.0 b.0) (str_eq a.1 b.1) h in
    ap₂ (λ x y. (x, y)) ((eq_iff a.0 b.0).0 both.0) ((eq_iff a.1 b.1).0 both.1)

pub same_key_refl : (a : Key) → same_key a a ≡ true
unfolding same_key
same_key_refl a = ground (arith, (eq_iff a.0 a.0).1 refl, (eq_iff a.1 a.1).1 refl)

pub same_key_ne : (a b : Key) → a ≢ b → same_key a b ≡ false
same_key_ne a b h = ground (arith, same_key→eq a b)

-- Equal, or told apart by the test.
pub Key-cases : (a b : Key) → (a ≡ b) ⊎ (same_key a b ≡ false)
Key-cases a b = ground (arith, same_key→eq a b)

-- A map from keys, with one key given anew.
module _ {ℓ} {V : Type ℓ} where
  abbrev pub update : (Key → V) → Key → V → Key → V
  update f k v j = if same_key k j then v else f j

pub In-cases : (k : Key) (ks : List Key) → In k ks ⊎ (¬ In k ks)
In-cases k [] = inr (λ i. i)
In-cases k (j ∷ js) = elim (Key-cases k j) [
  | inl e ↦ inl (inl e)
  | inr ne ↦ elim (In-cases k js) [
    | inl i ↦ inl (inr i)
    | inr n ↦ inr (λ i. elim i [ inl e ↦ absurd_same e ne | inr j ↦ n j ])
  ]
]
  where
    absurd_same : k ≡ j → same_key k j ≡ false → ⊥
    absurd_same e ne = ground (arith, same_key_refl k)
