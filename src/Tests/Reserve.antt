-- ===== src/Tests/Reserve.antt =====
-- The theorems on reserve tables at concrete batches.
use mathlib.Core.List.Perm
use neu_chain.Prelude.{ℕ, ◌≡◌, ◌↔◌, refl, true, [], ◌∷◌, arith}
use neu_chain.RwSet.{read_keys, write_keys}
use neu_chain.ReserveTable.{new_reserve_table, dependency_analysis}
use neu_chain.ReserveTable.Min.{Batch, reserve_all, reserve_all-perm}
use neu_chain.ReserveTable.Exact.{Conflict, dependency_analysis-exact}
use neu_chain.ReserveTable.Exchange.{
  Place, Shared, Act, starting, holding, finished, load, exchange, retry, Step, acts, Reach, here,
  next, begin,
}
use neu_chain.ReserveTable.Exchange.Result.{reserve_each, Reach-reserve_each}
use neu_chain.Tests.Data.{set_of}

abbrev batch : Batch
batch = (1, set_of "a" "b" "a") ∷ (2, set_of "c" "b" "c") ∷ (3, set_of "b" "d" "b") ∷ []

abbrev swapped : Batch
swapped = (2, set_of "c" "b" "c") ∷ (1, set_of "a" "b" "a") ∷ (3, set_of "b" "d" "b") ∷ []

dependency_analysis-exact_example :
    let d = dependency_analysis (set_of "c" "b" "c") 2 (reserve_all batch (new_reserve_table 4)) in
    ((d.waw ≡ true) ↔ Conflict write_keys batch 2 (("t", "b") ∷ []))
    × ((d.war ≡ true) ↔ Conflict read_keys batch 2 (("t", "b") ∷ []))
    × ((d.raw ≡ true) ↔ Conflict write_keys batch 2 (("t", "c") ∷ []))
dependency_analysis-exact_example =
    dependency_analysis-exact batch 4 2 (set_of "c" "b" "c") (omega arith)

reserve_all-perm_example :
    reserve_all batch (new_reserve_table 4) ≡ reserve_all swapped (new_reserve_table 4)
reserve_all-perm_example =
    reserve_all-perm batch swapped (new_reserve_table 4) (omega arith) (omega arith)
      (Perm.swap (2, set_of "c" "b" "c") (1, set_of "a" "b" "a") _)

-- Both threads load a zero; 5 exchanges; the exchange of 3 fails, loads 5, and then succeeds.
abbrev two : ℕ → Place → Place → Shared
two r p q = record {
  register = r;
  threads = record { tid = 5; place = p } ∷ record { tid = 3; place = q } ∷ [];
}

first_acts :
    (r r' : ℕ) (p p' q : Place)
    → Act r (record { tid = 5; place = p }) r' (record { tid = 5; place = p' })
    → Step (two r p q) (two r' p' q)
first_acts r r' p p' q a = acts [] _ _ _ refl refl refl a

second_acts :
    (r r' : ℕ) (p q q' : Place)
    → Act r (record { tid = 3; place = q }) r' (record { tid = 3; place = q' })
    → Step (two r p q) (two r' p q')
second_acts r r' p q q' a = acts (_ ∷ []) _ _ _ refl refl refl a

race : Reach (begin 0 (5 ∷ 3 ∷ [])) (two 3 finished finished)
unfolding begin
race =
    next
      (next
        (next
          (next (next here (first_acts 0 0 starting (holding 0) starting (load refl refl refl)))
            (second_acts 0 0 (holding 0) starting (holding 0) (load refl refl refl)))
          (first_acts 0 5 (holding 0) finished (holding 0) (exchange 0 refl refl refl refl refl)))
        (second_acts 5 5 finished (holding 0) (holding 5) (retry 0 refl refl refl refl)))
      (second_acts 5 3 finished (holding 5) finished (exchange 5 refl refl refl refl refl))

Reach-reserve_each_example : ◌≡◌ {A = ℕ} 3 (reserve_each (5 ∷ 3 ∷ []) 0)
Reach-reserve_each_example =
    Reach-reserve_each 0 (5 ∷ 3 ∷ []) (two 3 finished finished) (omega arith) race
      (refl, (refl, tt))
