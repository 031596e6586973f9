-- ===== src/Tests/Maps.antt =====
-- The theorem on the hash map at a concrete input.
use neu_chain.Prelude.{ℕ, ◌≡◌, not, none, some, [], ◌∷◌, ◌==◌, ==_iff, if◌then◌else◌}
use neu_chain.HashMap.{HashMap, contains, remove, insert, index, assign}
use neu_chain.HashMap.Refines.{lookup, value_or, lookup-each}

-- The keys 3 and 8 share a part of five.
abbrev parts : HashMap ℕ ℕ
parts i = if i == 3 then (3, 70) ∷ [] else []

abbrev same : ℕ → ℕ
same k = k

lookup-each_example :
    let find = lookup (◌==◌) ==_iff same 5 in
    (find (remove (◌==◌) same 5 8 parts).1 3 ≡ (if 8 == 3 then none else find parts 3))
    × ((remove (◌==◌) same 5 8 parts).0 ≡ contains (◌==◌) same 5 8 parts)
    × (find (insert (◌==◌) same 5 8 1 parts).1 3
        ≡ (if 8 == 3 then some (value_or 1 (find parts 8)) else find parts 3))
    × ((insert (◌==◌) same 5 8 1 parts).0 ≡ not (contains (◌==◌) same 5 8 parts))
    × (find (index (◌==◌) same 5 0 8 parts).1 3
        ≡ (if 8 == 3 then some (value_or 0 (find parts 8)) else find parts 3))
    × ((index (◌==◌) same 5 0 8 parts).0 ≡ value_or 0 (find parts 8))
    × (find (assign (◌==◌) same 5 0 8 1 parts) 3 ≡ (if 8 == 3 then some 1 else find parts 3))
lookup-each_example = lookup-each (◌==◌) ==_iff same 5 8 3 1 0 parts
