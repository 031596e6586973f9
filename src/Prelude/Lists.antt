-- ===== src/Prelude/Lists.antt =====
-- Lists measured by native numbers, and predicates over lists by recursion.
use Prim.Native.Nat.{ℕ, suc, ◌+◌}
use mathlib.Core.Path.{◌≡◌, refl, sym, subst}
use mathlib.Core.Logic.{◌⊎◌, inl, inr}
use mathlib.Core.Bool.{Bool, true}
use mathlib.Core.List.{List, [], ◌∷◌, ◌++◌, map}
use native.Mathlib.Omega.{arith}
use neu_chain.Prelude.Tests.{if◌then◌else◌, Bool-cases}

module _ {ℓ} {A : Type ℓ} where
  abbrev pub length : List A → ℕ
  length [] = 0
  length (x ∷ xs) = suc (length xs)

  pub length-append : (xs ys : List A) → length (xs ++ ys) ≡ length xs + length ys
  length-append [] ys = omega arith
  length-append (x ∷ xs) ys = omega (arith, length-append xs ys)

-- Every element has the property.
abbrev pub All {ℓ κ} : {A : Type ℓ} → (A → Type κ) → List A → Type κ
All P [] = Unit
All P (x ∷ xs) = P x × All P xs

-- The element stands in the list, at a known place.
abbrev pub In : {A : Type 0} → A → List A → Type 0
In a [] = ⊥
In a (x ∷ xs) = (a ≡ x) ⊎ In a xs

-- The relation holds from each element to each later one.
abbrev pub Pairwise {ℓ κ} : {A : Type ℓ} → (A → A → Type κ) → List A → Type κ
Pairwise R [] = Unit
Pairwise R (x ∷ xs) = All (R x) xs × Pairwise R xs

pub All-map_lem {ℓ κ μ} :
    {A : Type ℓ} (P : A → Type κ) (Q : A → Type μ) (xs : List A)
    → ((a : A) → P a → Q a)
    → All P xs
    → All Q xs
All-map_lem P Q [] f h = tt
All-map_lem P Q (x ∷ xs) f h = (f x h.0, All-map_lem P Q xs f h.1)

pub All-and {ℓ κ μ} :
    {A : Type ℓ} (P : A → Type κ) (Q : A → Type μ) (ys : List A)
    → All P ys
    → All Q ys
    → All (λ y. P y × Q y) ys
All-and P Q [] a b = tt
All-and P Q (y ∷ ys) a b = ((a.0, b.0), All-and P Q ys a.1 b.1)

pub Pairwise-and {ℓ κ μ} :
    {A : Type ℓ} (R : A → A → Type κ) (S : A → A → Type μ) (xs : List A)
    → Pairwise R xs
    → Pairwise S xs
    → Pairwise (λ a b. R a b × S a b) xs
Pairwise-and R S [] h k = tt
Pairwise-and R S (x ∷ xs) h k = (All-and (R x) (S x) xs h.0 k.0, Pairwise-and R S xs h.1 k.1)

-- A relation between any two elements of a kind, from another that holds along the list.
pub Pairwise-map_lem {ℓ κ μ ν} :
    {A : Type ℓ} (P : A → Type κ) (R : A → A → Type μ) (S : A → A → Type ν) (xs : List A)
    → ((x y : A) → P x → P y → R x y → S x y)
    → All P xs
    → Pairwise R xs
    → Pairwise S xs
Pairwise-map_lem P R S [] f h k = tt
Pairwise-map_lem P R S (x ∷ xs) f h k = (
  All-map_lem (λ y. P y × R x y) (S x) xs (λ y q. f x y h.0 q.0 q.1) (All-and P (R x) xs h.1 k.0),
  Pairwise-map_lem P R S xs f h.1 k.1,
)

module _ {ℓ κ} {A : Type ℓ} {B : Type κ} (f : A → B) where
  pub All-map {μ} : (P : B → Type μ) (xs : List A) → All (λ x. P (f x)) xs → All P (map f xs)
  All-map P [] h = tt
  All-map P (x ∷ xs) h = (h.0, All-map P xs h.1)

  pub All-of_map {μ} : (P : B → Type μ) (xs : List A) → All P (map f xs) → All (λ x. P (f x)) xs
  All-of_map P [] h = tt
  All-of_map P (x ∷ xs) h = (h.0, All-of_map P xs h.1)

  pub Pairwise-map {μ} :
      (R : B → B → Type μ) (xs : List A)
      → Pairwise (λ x y. R (f x) (f y)) xs
      → Pairwise R (map f xs)
  Pairwise-map R [] h = tt
  Pairwise-map R (x ∷ xs) h = (All-map (R (f x)) xs h.0, Pairwise-map R xs h.1)

pub All-of_any {ℓ κ} : {A : Type ℓ} {P : A → Type κ} → ((a : A) → P a) → (xs : List A) → All P xs
All-of_any f [] = tt
All-of_any f (x ∷ xs) = (f x, All-of_any f xs)

pub All-In {κ} : {A : Type 0} (P : A → Type κ) (a : A) (xs : List A) → All P xs → In a xs → P a
All-In P a [] h i = absurd i
All-In P a (x ∷ xs) h (inl e) = subst P (sym e) h.0
All-In P a (x ∷ xs) h (inr i) = All-In P a xs h.1 i

pub All-of_In {κ} :
    {A : Type 0} (P : A → Type κ) (xs : List A) → ((a : A) → In a xs → P a) → All P xs
All-of_In P [] f = tt
All-of_In P (x ∷ xs) f = (f x (inl refl), All-of_In P xs (λ a i. f a (inr i)))

pub In-append_left : {A : Type 0} (a : A) (xs ys : List A) → In a xs → In a (xs ++ ys)
In-append_left a [] ys i = absurd i
In-append_left a (x ∷ xs) ys (inl e) = inl e
In-append_left a (x ∷ xs) ys (inr i) = inr (In-append_left a xs ys i)

pub In-append_right : {A : Type 0} (a : A) (xs ys : List A) → In a ys → In a (xs ++ ys)
In-append_right a [] ys i = i
In-append_right a (x ∷ xs) ys i = inr (In-append_right a xs ys i)

pub In-append_split : {A : Type 0} (a : A) (xs ys : List A) → In a (xs ++ ys) → In a xs ⊎ In a ys
In-append_split a [] ys i = inr i
In-append_split a (x ∷ xs) ys (inl e) = inl (inl e)
In-append_split a (x ∷ xs) ys (inr i) = elim (In-append_split a xs ys i) [
  | inl l ↦ inl (inr l)
  | inr r ↦ inr r
]

module _ {A : Type 0} (p : A → Bool) where
  -- The elements that pass a test.
  abbrev pub keep : List A → List A
  keep [] = []
  keep (x ∷ xs) = if p x then x ∷ keep xs else keep xs

  pub All-keep {κ} : (P : A → Type κ) (xs : List A) → All P xs → All P (keep xs)
  All-keep P [] h = tt
  All-keep P (x ∷ xs) h = elim (Bool-cases (p x)) [
    | inl e ↦ rw e (h.0, All-keep P xs h.1)
    | inr e ↦ rw e (All-keep P xs h.1)
  ]

  pub All-keep_self : (xs : List A) → All (λ x. p x ≡ true) (keep xs)
  All-keep_self [] = tt
  All-keep_self (x ∷ xs) = elim (Bool-cases (p x)) [
    | inl e ↦ rw e (e, All-keep_self xs)
    | inr e ↦ rw e (All-keep_self xs)
  ]

  pub Pairwise-keep {κ} : (R : A → A → Type κ) (xs : List A) → Pairwise R xs → Pairwise R (keep xs)
  Pairwise-keep R [] h = tt
  Pairwise-keep R (x ∷ xs) h = elim (Bool-cases (p x)) [
    | inl e ↦ rw e (All-keep (R x) xs h.0, Pairwise-keep R xs h.1)
    | inr e ↦ rw e (Pairwise-keep R xs h.1)
  ]

  pub In-keep : (a : A) (xs : List A) → In a xs → p a ≡ true → In a (keep xs)
  In-keep a [] i h = i
  In-keep a (x ∷ xs) (inl e) h = rw (← e, h) (inl refl)
  In-keep a (x ∷ xs) (inr i) h = elim (Bool-cases (p x)) [
    | inl e ↦ rw e (inr (In-keep a xs i h))
    | inr e ↦ rw e (In-keep a xs i h)
  ]

-- A list with one more element at its end, and one with an element replaced.
pub All-push {ℓ κ} :
    {A : Type ℓ} (P : A → Type κ) (x : A) (xs : List A) → All P xs → P x → All P (xs ++ x ∷ [])
All-push P x [] h p = (p, tt)
All-push P x (y ∷ ys) h p = (h.0, All-push P x ys h.1 p)

pub All-replace {ℓ κ} :
    {A : Type ℓ} (P : A → Type κ) (before after : List A) (a b : A)
    → (P a → P b)
    → All P (before ++ a ∷ after)
    → All P (before ++ b ∷ after)
All-replace P [] after a b f h = (f h.0, h.1)
All-replace P (x ∷ before) after a b f h = (h.0, All-replace P before after a b f h.1)
