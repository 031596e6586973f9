-- ===== src/SmallBank/Balance.antt =====
-- The balance of an account in a view of the storage, and what a write changes of it.
use neu_chain.Prelude.{
  ℕ, ◌^◌, ◌<◌, ◌≡◌, ◌≢◌, refl, sym, ap, ◌∙◌, String, Key, update, same_key_refl, same_key_ne, arith,
}
use Prim.Native.Char.{code}
use text.Mathlib.TextLemmas.{append_cancel_left, cons-append}
use neu_chain.Int32.{to_string, strtol}
use neu_chain.Int32.RoundTrip.{strtol-to_string, to_string-ne-nil, strtol-lt}
use neu_chain.Serial.{View}
use neu_chain.SmallBank.{small_bank_table, saving, checking}
use neu_chain.SmallBank.Sound.{stored}

abbrev pub bank_key : String → Key
bank_key key = (small_bank_table, key)

-- What a chaincode computes with: 1000 where nothing is stored.
abbrev pub balance : View → String → ℕ
balance v key = strtol (stored v key)

pub balance-lt : (v : View) (key : String) → balance v key < 2 ^ 32
balance-lt v key = strtol-lt (stored v key)

pub balance-update :
    (v : View) (key : String) (n : ℕ)
    → n < 2 ^ 32
    → balance (update v (bank_key key) (to_string n)) key ≡ n
balance-update v key n h =
    rw (same_key_refl (bank_key key)) (rw (to_string-ne-nil n) (strtol-to_string n h))

pub balance-update_other :
    (v : View) (key other : String) (x : String)
    → key ≢ other
    → balance (update v (bank_key key) x) other ≡ balance v other
balance-update_other v key other x ne =
    rw (same_key_ne (bank_key key) (bank_key other) (λ e. ne (ap (λ k. k.1) e))) refl

pub checking-ne : (a b : String) → a ≢ b → checking a ≢ checking b
checking-ne a b ne e = ne (append_cancel_left "checking_" a b e)

first_code : String → ℕ
first_code String.[] = 0
first_code (String.◌∷◌ c s) = code c

pub saving-ne-checking : (a b : String) → saving a ≢ checking b
unfolding first_code
saving-ne-checking a b e = absurd (omega (arith, first))
  where
    first : code "s" ≡ code "c"
    first =
        sym (ap first_code (cons-append "s" "aving_" a))
        ∙ ap first_code e
        ∙ ap first_code (cons-append "c" "hecking_" b)
