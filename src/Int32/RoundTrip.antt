-- ===== src/Int32/RoundTrip.antt =====
-- An `int` is read back from its decimal text.
use neu_chain.Prelude.{
  ℕ, zero, suc, ◌+◌, ◌-◌, ◌*◌, ◌/◌, ◌%◌, ◌^◌, ◌≡◌, ◌<◌, ◌≤◌, refl, ap, ◌∙◌, String, true, false,
  ltb, str_eq, arith, Bool-cases, inl, inr,
}
use Prim.Native.Char.{Char, code}
use Prim.Native.String.compare
use text.Mathlib.Text.{is_eq}
use Prim.Native.String
use neu_chain.Int32.{
  digit_char, digits, unsigned_text, to_string, scan, strtol, scan_sign, is_digit, is_negative,
}

code-digit_char : (d : ℕ) → d < 10 → code (digit_char d) ≡ b'0' + d
unfolding digit_char
code-digit_char zero h = refl
code-digit_char (suc zero) h = refl
code-digit_char (suc (suc zero)) h = refl
code-digit_char (suc (suc (suc zero))) h = refl
code-digit_char (suc (suc (suc (suc zero)))) h = refl
code-digit_char (suc (suc (suc (suc (suc zero))))) h = refl
code-digit_char (suc (suc (suc (suc (suc (suc zero)))))) h = refl
code-digit_char (suc (suc (suc (suc (suc (suc (suc zero))))))) h = refl
code-digit_char (suc (suc (suc (suc (suc (suc (suc (suc zero)))))))) h = refl
code-digit_char (suc (suc (suc (suc (suc (suc (suc (suc (suc zero))))))))) h = refl
code-digit_char (suc (suc (suc (suc (suc (suc (suc (suc (suc (suc d)))))))))) h =
    absurd (omega arith)

-- 10 ^ fuel.
bound : ℕ → ℕ
bound zero = 1
bound (suc k) = 10 * bound k

scan-digit_char :
    (n : ℕ) (s : String) (m : ℕ)
    → scan (String.◌∷◌ (digit_char (n % 10)) s) m ≡ scan s (m * 10 + n % 10)
unfolding scan
scan-digit_char n s m = ground (arith, code-digit_char (n % 10) (omega arith))

-- Reading the digits of a number puts it behind what follows.
scan-digits : (fuel n : ℕ) (s : String) → n < bound fuel → scan (digits fuel n s) 0 ≡ scan s n
unfolding scan digits bound
scan-digits zero n s h = ap (scan s) (omega arith)
scan-digits (suc fuel) n s h =
    let last = scan-digit_char n s in
    elim (Bool-cases (ltb n 10)) [
      | inl e ↦ rw e (last 0 ∙ ap (scan s) (ground arith))
      | inr e ↦ rw e (
          scan-digits fuel (n / 10) (String.◌∷◌ (digit_char (n % 10)) s) (omega arith)
          ∙ last (n / 10)
          ∙ ap (scan s) (omega arith))
    ]

is_digit-digit_char : (n : ℕ) → is_digit (code (digit_char (n % 10))) ≡ true
is_digit-digit_char n = ground (arith, code-digit_char (n % 10) (omega arith))

StartsWithDigit : String → Type 0
StartsWithDigit String.[] = ⊥
StartsWithDigit (String.◌∷◌ c s) = is_digit (code c) ≡ true

digits-StartsWithDigit :
    (fuel n : ℕ) (s : String) → StartsWithDigit s → StartsWithDigit (digits fuel n s)
unfolding digits StartsWithDigit
digits-StartsWithDigit zero n s h = h
digits-StartsWithDigit (suc fuel) n s h =
    let first = is_digit-digit_char n in
    elim (Bool-cases (ltb n 10)) [
      | inl e ↦ rw e first
      | inr e ↦
          rw e (digits-StartsWithDigit fuel (n / 10) (String.◌∷◌ (digit_char (n % 10)) s) first)
    ]

-- On a text that starts with a digit, `strtol` only reads digits.
strtol-digit : (s : String) → StartsWithDigit s → scan s 0 < 2 ^ 32 → strtol s ≡ scan s 0
unfolding strtol scan_sign StartsWithDigit
strtol-digit String.[] h small = absurd h
strtol-digit (String.◌∷◌ c s) h small = rw (h) (ground arith)

bound_20 : (n : ℕ) → n < 2 ^ 32 → n < bound 20
unfolding bound
bound_20 n h = omega arith

unsigned_text-StartsWithDigit : (n : ℕ) → StartsWithDigit (unsigned_text n)
unfolding unsigned_text digits StartsWithDigit
unsigned_text-StartsWithDigit n = elim (Bool-cases (ltb n 10)) [
  | inl e ↦ rw e (is_digit-digit_char n)
  | inr e ↦ rw e (
      digits-StartsWithDigit 19 (n / 10) (String.◌∷◌ (digit_char (n % 10)) "")
        (is_digit-digit_char n))
]

scan-unsigned_text : (n : ℕ) → n < 2 ^ 32 → scan (unsigned_text n) 0 ≡ n
unfolding unsigned_text scan
scan-unsigned_text n h = scan-digits 20 n "" (bound_20 n h)

-- A minus sign, then digits.
strtol-minus :
    (s : String) → scan s 0 ≤ 2 ^ 31 → strtol (String.◌∷◌ "-" s) ≡ (2 ^ 32 - scan s 0) % 2 ^ 32
unfolding strtol scan_sign
strtol-minus s h = ground arith

-- Every `int` is read back from the text that it is printed as.
pub strtol-to_string : (a : ℕ) → a < 2 ^ 32 → strtol (to_string a) ≡ a
unfolding to_string
strtol-to_string a h = elim (Bool-cases (is_negative a)) [
  | inr e ↦ rw e (
      strtol-digit (unsigned_text a) (unsigned_text-StartsWithDigit a)
        (ground (arith, scan-unsigned_text a h))
      ∙ scan-unsigned_text a h)
  | inl e ↦
      let back = scan-unsigned_text (2 ^ 32 - a) (ground arith) in
      rw e (strtol-minus (unsigned_text (2 ^ 32 - a)) (ground arith) ∙ ground arith)
]

str_eq-cons-nil : (c : Char) (s : String) → str_eq (String.◌∷◌ c s) "" ≡ false
str_eq-cons-nil c s = ap is_eq (String.compare.cons-nil c s)

StartsWithDigit-ne-nil : (s : String) → StartsWithDigit s → str_eq s "" ≡ false
unfolding StartsWithDigit
StartsWithDigit-ne-nil String.[] h = absurd h
StartsWithDigit-ne-nil (String.◌∷◌ c s) h = str_eq-cons-nil c s

pub to_string-ne-nil : (a : ℕ) → str_eq (to_string a) "" ≡ false
unfolding to_string
to_string-ne-nil a = elim (Bool-cases (is_negative a)) [
  | inl e ↦ rw e (str_eq-cons-nil "-" (unsigned_text (2 ^ 32 - a)))
  | inr e ↦ rw e (StartsWithDigit-ne-nil (unsigned_text a) (unsigned_text-StartsWithDigit a))
]

-- What is read is an `int`.
pub strtol-lt : (s : String) → strtol s < 2 ^ 32
unfolding strtol scan_sign
strtol-lt String.[] = omega arith
strtol-lt (String.◌∷◌ c s) = ground (arith, strtol-lt s)
