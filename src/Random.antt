-- ===== src/Random.antt =====
-- The random numbers of the chaincodes and of the users, include/common/random.h: the 48-bit
-- congruential generator. The state is the seed, which each draw moves on.
use neu_chain.Prelude.{
  ℕ, ◌+◌, ◌-◌, ◌*◌, ◌/◌, ◌%◌, ◌^◌, ◌≤◌, ◌<◌, ◌==◌, if◌then◌else◌, Bool-cases, inl, inr, arith,
}
use native.Mathlib.Nat.{mod-lt}

-- `init_seed(0)`: the multiplier, which is below 2 ^ 48.
abbrev pub initial_seed : ℕ
initial_seed = 25214903917

-- `next(bits)`, with the new seed.
unfoldable pub next_bits : ℕ → ℕ → ℕ × ℕ
next_bits bits seed =
    let seed' = (seed * 25214903917 + 11) % 2 ^ 48 in (seed' / 2 ^ (48 - bits), seed')

-- `next()`. C++ leaves open which of the two draws is made first; here it is the left one.
unfoldable pub next : ℕ → ℕ × ℕ
unfolding next_bits
next seed =
    let high = next_bits 32 seed in
    let low = next_bits 32 high.1 in ((high.0 * 2 ^ 32 + low.0) % 2 ^ 64, low.1)

unfoldable pub uniform_dist : ℕ → ℕ → ℕ → ℕ × ℕ
unfolding next
uniform_dist a b seed =
    if a == b
    then (a, seed)
    else let r = next seed in ((r.0 % ((b + (2 ^ 64 - a) + 1) % 2 ^ 64) + a) % 2 ^ 64, r.1)

-- A draw from `a` to `b` lies between the two, if `a` is not above `b`, both are 64-bit numbers and
-- they do not span all of those.
pub uniform_dist-bounds :
    (a b seed : ℕ)
    → a ≤ b
    → b - a < 2 ^ 64 - 1
    → b < 2 ^ 64
    → (a ≤ (uniform_dist a b seed).0) × ((uniform_dist a b seed).0 ≤ b)
unfolding uniform_dist
uniform_dist-bounds a b seed ordered narrow small = elim (Bool-cases (a == b)) [
  | inl e ↦ rw e (ground arith)
  | inr e ↦
      let drawn = mod-lt (next seed).0 {m = (b + (2 ^ 64 - a) + 1) % 2 ^ 64} (ground arith) in
      rw e (omega (arith, drawn))
]
