-- ===== src/Int32.antt =====
-- `int`, with its decimal texts: `std::to_string`, and `static_cast<int>(strtol(s, nullptr, 10))`.
-- An `int` is its bit pattern, a number below 2 ^ 32; one from 2 ^ 31 on is negative. Sums and
-- differences wrap around.
pub mod RoundTrip
use neu_chain.Prelude.{
  ℕ, zero, suc, ◌+◌, ◌-◌, ◌*◌, ◌/◌, ◌%◌, ◌^◌, ◌≡◌, refl, String, Bool, true, false, ◌&&◌, ◌||◌, leb,
  ltb, ◌==◌, if◌then◌else◌,
}
use Prim.Native.Char.{Char, code}
use Prim.Native.String

abbrev pub add_int : ℕ → ℕ → ℕ
add_int a b = (a + b) % 2 ^ 32

abbrev pub negate_int : ℕ → ℕ
negate_int a = (2 ^ 32 - a) % 2 ^ 32

abbrev pub sub_int : ℕ → ℕ → ℕ
sub_int a b = (a + (2 ^ 32 - b)) % 2 ^ 32

abbrev pub is_negative : ℕ → Bool
is_negative a = leb (2 ^ 31) a

-- `a < b` of signed numbers: a shift by 2 ^ 31 puts them in order.
abbrev pub lt_int : ℕ → ℕ → Bool
lt_int a b = ltb ((a + 2 ^ 31) % 2 ^ 32) ((b + 2 ^ 31) % 2 ^ 32)

unfoldable pub digit_char : ℕ → Char
digit_char n =
    if n == 0
    then "0"
    else if n == 1
    then "1"
    else if n == 2
    then "2"
    else if n == 3
    then "3"
    else if n == 4
    then "4"
    else if n == 5
    then "5"
    else if n == 6
    then "6"
    else if n == 7
    then "7"
    else if n == 8
    then "8"
    else "9"

-- The digits of a number in front of a text. The fuel counts digits: an `int` has at most ten.
unfoldable pub digits : ℕ → ℕ → String → String
unfolding digit_char
digits zero n s = s
digits (suc fuel) n s =
    let s' = String.◌∷◌ (digit_char (n % 10)) s in
    let rest = digits fuel (n / 10) s' in if ltb n 10 then s' else rest

unfoldable pub unsigned_text : ℕ → String
unfolding digits
unsigned_text n = digits 20 n ""

unfoldable pub to_string : ℕ → String
unfolding unsigned_text
to_string a = if is_negative a then String.◌∷◌ "-" (unsigned_text (2 ^ 32 - a)) else unsigned_text a

abbrev pub is_digit : ℕ → Bool
is_digit c = leb b'0' c && leb c b'9'

-- `isspace` in the C locale.
abbrev pub is_space : ℕ → Bool
is_space c = c == 32 || (leb 9 c && leb c 13)

-- The value of the digits at the head of a text, behind those of `n`.
unfoldable pub scan : String → ℕ → ℕ
scan String.[] n = n
scan (String.◌∷◌ c s) n = if is_digit (code c) then scan s (n * 10 + (code c - b'0')) else n

unfoldable pub scan_sign : String → ℕ
unfolding scan
scan_sign String.[] = 0
scan_sign (String.◌∷◌ c s) =
    if code c == b'-'
    then negative (scan s 0)
    else positive (if code c == b'+' then scan s 0 else scan (String.◌∷◌ c s) 0)
  where
    -- `strtol` stops at the bounds of a `long`; the cast keeps the low 32 bits.
    positive : ℕ → ℕ
    positive m = (if leb (2 ^ 63) m then 2 ^ 63 - 1 else m) % 2 ^ 32

    negative : ℕ → ℕ
    negative m = (2 ^ 64 - (if leb (2 ^ 63) m then 2 ^ 63 else m)) % 2 ^ 32

unfoldable pub strtol : String → ℕ
unfolding scan_sign
strtol String.[] = 0
strtol (String.◌∷◌ c s) = if is_space (code c) then strtol s else scan_sign (String.◌∷◌ c s)

texts :
    (to_string 0 ≡ "0") × (to_string 1234567890 ≡ "1234567890") × (to_string (2 ^ 32 - 45) ≡ "-45")
unfolding to_string
texts = (refl, refl, refl)

numbers : (strtol "  -45x" ≡ 2 ^ 32 - 45) × (strtol "+17" ≡ 17) × (strtol "x" ≡ 0)
unfolding strtol
numbers = (refl, refl, refl)
