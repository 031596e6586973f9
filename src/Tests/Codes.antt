-- ===== src/Tests/Codes.antt =====
-- Values as lists of numbers, each read back from in front of any others.
use Prim.Native.Nat.{Ordering, compare}
use Prim.Native.Char.{Char, char, code, nul, IsLt}
use Prim.Native.String.{[] as empty, ◌∷◌ as ◌first◌}
use text.Mathlib.TextEquality.{Char-path}
use neu_chain.Prelude.{
  ℕ, zero, suc, ◌≡◌, refl, ap, ◌∙◌, String, Bool, true, false, not, Option, none, some, List, [],
  ◌∷◌, ◌++◌, ◌==◌, length, if◌then◌else◌,
}
use mathlib.Core.List.{append_assoc}

abbrev pub Codes : Type 0
Codes = List ℕ

pub record Codec (A : Type 0) : Type 0 where
  pub write : A → Codes
  pub read : Codes → Option (A × Codes)
  pub read-write : (a : A) (b : Codes) → read (write a ++ b) ≡ some (a, b)

abbrev read_number : Codes → Option (ℕ × Codes)
read_number [] = none
read_number (n ∷ b) = some (n, b)

abbrev pub number : Codec ℕ
number = record { write = λ n. n ∷ []; read = read_number; read-write = λ n b. refl }

module _ {A : Type 0} {B : Type 0} where
  -- A value that is kept as another one.
  abbrev pub kept_as : (put : A → B) (get : B → A) → ((a : A) → get (put a) ≡ a) → Codec B → Codec A
  kept_as put get back c = record {
    write = λ a. c.write (put a);
    read = λ b. elim (c.read b) [ none ↦ none | some (x, b') ↦ some (get x, b') ];
    read-write = λ a b.
        ap (λ o. elim o [ none ↦ none | some p ↦ some (get p.0, p.1) ]) (c.read-write (put a) b)
        ∙ ap (λ x. some (x, b)) (back a);
  }

  abbrev read_pair : Codec A → Codec B → Codes → Option ((A × B) × Codes)
  read_pair c d b = elim (c.read b) [
    | none ↦ none
    | some (x, b') ↦ elim (d.read b') [ none ↦ none | some (y, b'') ↦ some ((x, y), b'') ]
  ]

  abbrev pub pair : Codec A → Codec B → Codec (A × B)
  pair c d = record {
    write = λ p. c.write p.0 ++ d.write p.1;
    read = read_pair c d;
    read-write = λ p b.
        ap (read_pair c d) (append_assoc (c.write p.0) (d.write p.1) b)
        ∙ ap
            (λ o. elim o [
              | none ↦ none
              | some q ↦ elim (d.read q.1) [ none ↦ none | some r ↦ some ((q.0, r.0), r.1) ]
            ])
            (c.read-write p.0 (d.write p.1 ++ b))
        ∙ ap (λ o. elim o [ none ↦ none | some r ↦ some ((p.0, r.0), r.1) ]) (d.read-write p.1 b);
  }

module _ {A : Type 0} (c : Codec A) where
  abbrev write_all : List A → Codes
  write_all [] = []
  write_all (x ∷ xs) = c.write x ++ write_all xs

  abbrev read_all : ℕ → Codes → Option (List A × Codes)
  read_all zero b = some ([], b)
  read_all (suc n) b = elim (c.read b) [
    | none ↦ none
    | some (x, b') ↦ elim (read_all n b') [ none ↦ none | some (xs, b'') ↦ some (x ∷ xs, b'') ]
  ]

  pub read_all-write_all :
      (xs : List A) (b : Codes) → read_all (length xs) (write_all xs ++ b) ≡ some (xs, b)
  read_all-write_all [] b = refl
  read_all-write_all (x ∷ xs) b =
      ap (read_all (suc (length xs))) (append_assoc (c.write x) (write_all xs) b)
      ∙ ap
          (λ o. elim o [
            | none ↦ none
            | some p ↦ elim (read_all (length xs) p.1) [
              | none ↦ none
              | some r ↦ some (p.0 ∷ r.0, r.1)
            ]
          ])
          (c.read-write x (write_all xs ++ b))
      ∙ ap (λ o. elim o [ none ↦ none | some r ↦ some (x ∷ r.0, r.1) ]) (read_all-write_all xs b)

  abbrev read_list : Codes → Option (List A × Codes)
  read_list [] = none
  read_list (n ∷ b) = read_all n b

  abbrev pub list : Codec (List A)
  list = record {
    write = λ xs. length xs ∷ write_all xs;
    read = read_list;
    read-write = read_all-write_all;
  }

pub number_of-flag : (f : Bool) → not ((if f then 1 else 0) == 0) ≡ f
number_of-flag true = refl
number_of-flag false = refl

abbrev pub flag : Codec Bool
flag = kept_as (λ f. if f then 1 else 0) (λ n. not (n == 0)) number_of-flag number

-- `IsScalar` by the three comparisons.
abbrev IsBelow : Ordering → Ordering → Type 0
IsBelow Ordering.lt o = IsLt o
IsBelow Ordering.eq _ = ⊥
IsBelow Ordering.gt _ = ⊥

abbrev IsCode : Ordering → Ordering → Ordering → Type 0
IsCode Ordering.lt _ _ = Unit
IsCode Ordering.eq o p = IsBelow o p
IsCode Ordering.gt o p = IsBelow o p

abbrev below : (o p : Ordering) → Option (IsBelow o p)
below Ordering.lt Ordering.lt = some tt
below Ordering.lt Ordering.eq = none
below Ordering.lt Ordering.gt = none
below Ordering.eq _ = none
below Ordering.gt _ = none

abbrev is_code : (o p q : Ordering) → Option (IsCode o p q)
is_code Ordering.lt _ _ = some tt
is_code Ordering.eq p q = below p q
is_code Ordering.gt p q = below p q

below-some : (o p : Ordering) → IsBelow o p → (y : IsBelow o p) × (below o p ≡ some y)
below-some Ordering.lt Ordering.lt x = (tt, refl)
below-some Ordering.lt Ordering.eq x = elim x [ ]
below-some Ordering.lt Ordering.gt x = elim x [ ]
below-some Ordering.eq p x = elim x [ ]
below-some Ordering.gt p x = elim x [ ]

is_code-some : (o p q : Ordering) → IsCode o p q → (y : IsCode o p q) × (is_code o p q ≡ some y)
is_code-some Ordering.lt _ _ x = (tt, refl)
is_code-some Ordering.eq p q x = below-some p q x
is_code-some Ordering.gt p q x = below-some p q x

abbrev char_of : ℕ → Char
char_of n = elim (is_code (compare n 55296) (compare 57343 n) (compare n 1114112)) [
  | none ↦ nul
  | some x ↦ char n x
]

char_of-code : (c : Char) → char_of (code c) ≡ c
char_of-code (char n x) =
    let (y, e) = is_code-some (compare n 55296) (compare 57343 n) (compare n 1114112) x in
    ap (λ o. elim o [ none ↦ nul | some z ↦ char n z ]) e ∙ Char-path (char n y) (char n x) refl

abbrev pub bytes : String → Codes
bytes empty = []
bytes (c first s) = code c ∷ bytes s

abbrev pub chars : Codes → String
chars [] = empty
chars (n ∷ b) = char_of n first chars b

pub chars-bytes : (s : String) → chars (bytes s) ≡ s
chars-bytes empty = refl
chars-bytes (c first s) =
    ap (λ d. d first chars (bytes s)) (char_of-code c) ∙ ap (λ r. c first r) (chars-bytes s)

abbrev pub string : Codec String
string = kept_as bytes chars chars-bytes (list number)
