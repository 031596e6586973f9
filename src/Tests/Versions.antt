-- ===== src/Tests/Versions.antt =====
-- The theorems on the map with versions, and on the reserve table over it, at concrete inputs.
use text.Mathlib.TextEquality.{eq_iff}
use neu_chain.Prelude.{
  ℕ, ◌≡◌, refl, ap, subst, Key, ◌==◌, if◌then◌else◌, length, ◌⊎◌, true, false, none, some, inl, inr,
  [], ◌∷◌, String, str_eq, In, arith,
}
use neu_chain.RwSet.{read_keys}
use neu_chain.ReserveTable.{new_reserve_table, dependency_analysis}
use neu_chain.ReserveTable.Min.{Batch, reserve_all}
use neu_chain.ReserveTable.Mvcc.{new_mvcc_table, mvcc_analysis}
use neu_chain.ReserveTable.Mvcc.Agrees.{reserve_batch}
use neu_chain.ReserveTable.Mvcc.Batches.{Claimed, mvcc_analysis-Agrees, mvcc_analysis-dangling}
use neu_chain.MvccHashMap.{
  MvccHashMap, version_count, insert_key_version_holder, remove_key, vacuum_key_versions,
}
use neu_chain.MvccHashMap.Refines.{versions}
use neu_chain.MvccHashMap.Meaning.{AtVersion, AtOlder, AtKey, KeepsOther, versions-Mapped}
use neu_chain.MvccHashMap.Vacuum.{Vacuumed, vacuum_key_versions-Vacuumed}
use neu_chain.Tests.Data.{set_of, write_of}

abbrev one_part : String → ℕ
one_part k = 0

-- Three versions of one key, in the first of five parts.
abbrev versioned : MvccHashMap String ℕ
versioned i = if i == 0 then ("k", ("c", 3) ∷ ("b", 2) ∷ ("a", 1) ∷ []) ∷ [] else []

versions-Mapped_example :
    AtVersion str_eq eq_iff one_part 5 "k" "b" 9 versioned
    × AtOlder str_eq eq_iff one_part 5 "k" "b" 9 versioned
    × AtKey str_eq eq_iff one_part 5 "k" "b" 9 versioned
    × (version_count str_eq one_part 5 "k" versioned
        ≡ length (versions str_eq eq_iff one_part 5 "k" versioned))
    × (versions str_eq eq_iff one_part 5 "k"
          (insert_key_version_holder str_eq one_part 5 9 "k" "b" versioned)
        ≡ ("b", 9) ∷ versions str_eq eq_iff one_part 5 "k" versioned)
    × (versions str_eq eq_iff one_part 5 "k" (remove_key str_eq one_part 5 "k" versioned).1 ≡ [])
    × ((str_eq "k" "j" ≡ true) ⊎ KeepsOther str_eq eq_iff one_part 5 "k" "j" "b" 9 versioned)
versions-Mapped_example = versions-Mapped str_eq eq_iff one_part 5 "k" "j" "b" 9 versioned

vacuum_key_versions-Vacuumed_example :
    (let (size, h') = vacuum_key_versions str_eq one_part 5 "k" "b" versioned in
      Vacuumed "b"
        (versions str_eq eq_iff one_part 5 "k" versioned)
        (size, versions str_eq eq_iff one_part 5 "k" h')
      × (str_eq "k" "j" ≡ false
          → versions str_eq eq_iff one_part 5 "j" h'
            ≡ versions str_eq eq_iff one_part 5 "j" versioned))
vacuum_key_versions-Vacuumed_example =
    vacuum_key_versions-Vacuumed str_eq eq_iff one_part 5 "k" "j" "b" versioned

-- Each of the two reads what the other writes.
abbrev crossing : Batch
crossing = (1, set_of "a" "b" "a") ∷ (2, set_of "b" "a" "b") ∷ []

mvcc_analysis-Agrees_example :
    mvcc_analysis one_part (set_of "a" "b" "a") 1 (reserve_batch one_part crossing new_mvcc_table)
    ≡ some (dependency_analysis (set_of "a" "b" "a") 1 (reserve_all crossing (new_reserve_table 4)))
mvcc_analysis-Agrees_example =
    mvcc_analysis-Agrees one_part crossing 4 1 (set_of "a" "b" "a") (inl refl)
      (((2, set_of "b" "a" "b"), inr (inl refl), inl refl), tt)
      (((2, set_of "b" "a" "b"), inr (inl refl), inl refl), tt)

-- One transaction alone, which reads a and writes b.
abbrev blind : Batch
blind = (1, set_of "a" "b" "a") ∷ []

never_read : ¬ Claimed read_keys blind ("t", "b")
never_read (e, inl p, i) = elim (subst (λ x. In ("t", "b") (read_keys x.1)) p i) [
  | inl q ↦ ground (arith, eq_iff "b" "a", ap (λ (k : Key). k.1) q)
  | inr none_left ↦ none_left
]
never_read (e, inr at, i) = at

mvcc_analysis-dangling_example :
    mvcc_analysis one_part (set_of "a" "b" "a") 1 (reserve_batch one_part blind new_mvcc_table)
    ≡ none
mvcc_analysis-dangling_example =
    mvcc_analysis-dangling one_part blind 1 (set_of "a" "b" "a") (write_of "b" "a") [] refl
      never_read
