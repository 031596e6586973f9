-- ===== src/ReserveTable/Register.antt =====
-- The compare-and-exchange loop on one register of a reserve table (lines 13-18 and 24-29 of
-- src/block_server/reserve_table/mock/mock_reserve_table.cpp), run by one thread alone, and the
-- algebra of the value that it leaves: the smaller of two ids, where 0 is no id.
use neu_chain.Prelude.{ℕ, ◌≤◌, ◌≡◌, ◌≢◌, ◌⊎◌, Bool, ◌&&◌, not, leb, ◌==◌, if◌then◌else◌, arith}

-- The test that leaves the loop without an exchange.
abbrev pub keeps : ℕ → ℕ → Bool
keeps tid old = leb old tid && not (old == 0)

unfoldable pub reserve_register : ℕ → ℕ → ℕ
reserve_register tid old = if keeps tid old then old else tid

-- The smaller id of two, where 0 is no id.
unfoldable pub earlier : ℕ → ℕ → ℕ
earlier a b = if a == 0 then b else if b == 0 then a else if leb a b then a else b

pub reserve_register-eq-earlier :
    (tid old : ℕ) → tid ≢ 0 → reserve_register tid old ≡ earlier tid old
unfolding reserve_register earlier
reserve_register-eq-earlier tid old h = ground arith

pub earlier_comm : (a b : ℕ) → earlier a b ≡ earlier b a
unfolding earlier
earlier_comm a b = ground arith

pub earlier_assoc : (a b c : ℕ) → earlier (earlier a b) c ≡ earlier a (earlier b c)
unfolding earlier
earlier_assoc a b c = ground arith

pub earlier_zero : (a : ℕ) → earlier a 0 ≡ a
unfolding earlier
earlier_zero a = ground arith

pub zero_earlier : (a : ℕ) → earlier 0 a ≡ a
unfolding earlier
zero_earlier a = ground arith

pub earlier-cases : (a b : ℕ) → (earlier a b ≡ a) ⊎ (earlier a b ≡ b)
unfolding earlier
earlier-cases a b = ground arith

pub earlier-le : (a b : ℕ) → a ≢ 0 → (earlier a b ≢ 0) × (earlier a b ≤ a)
unfolding earlier
earlier-le a b h = ground arith
