-- ===== src/ReserveTable/Mvcc/Agrees.antt =====
-- The table over an `MVCCHashMap` holds the same ids as the one over a `HashMap`, and its analysis
-- gives the same flags, where all registers that it loads have been made. It stops the process where
-- one has not.
use mathlib.Core.Path.{ap₂}
use neu_chain.Prelude.{
  ℕ, ◌≡◌, refl, ap, ◌∙◌, fun_ext, inl, inr, some, List, [], ◌∷◌, String, Key, same_key, All,
  Bool-cases, arith,
}
use neu_chain.HashMap.Refines.{value_or}
use neu_chain.RwSet.{KvRead, KvWrite, KvRwSet, read_key, write_key}
use neu_chain.ReserveTable.{
  ReserveTable, reserve_key, reserve_reads, reserve_writes, reserve_rw_set, find_earlier_write,
  find_earlier_read, dependency_analysis,
}
use neu_chain.ReserveTable.Min.{Batch, reserve_all}
use neu_chain.ReserveTable.Mvcc.{
  Registers, MvccReserveTable, get_register, reserve_version, reserve_read_versions,
  reserve_write_versions, reserve_mvcc, find_earlier_write_version, find_earlier_read_version,
  mvcc_analysis,
}
use neu_chain.ReserveTable.Mvcc.Registers.{get-reserve_version}

module _ (hash : String → ℕ) where
  -- The id that a table of registers holds for a key, 0 where there is no register.
  abbrev pub ids : Registers → Key → ℕ
  ids t k = value_or 0 (get_register hash k t)

  abbrev pub table_of : ℕ → MvccReserveTable → ReserveTable
  table_of e m = record {
    epoch = e;
    read_table = ids m.read_table;
    write_table = ids m.write_table;
  }

  -- The reservations of a batch, in the order in which they are made.
  unfoldable pub reserve_batch : Batch → MvccReserveTable → MvccReserveTable
  reserve_batch [] m = m
  reserve_batch ((tid, s) ∷ b) m = reserve_batch b (reserve_mvcc hash s tid m)

  ids-reserve_version :
      (tid : ℕ) (k : Key) (t : Registers)
      → ids (reserve_version hash tid k t) ≡ reserve_key tid k (ids t)
  ids-reserve_version tid k t = fun_ext (λ j.
      ap (value_or 0) (get-reserve_version hash j k tid t)
      ∙ elim (Bool-cases (same_key k j)) [ inl e ↦ rw e refl | inr e ↦ rw e refl ])

  ids-reserve_read_versions :
      (tid : ℕ) (rs : List KvRead) (t : Registers)
      → ids (reserve_read_versions hash tid rs t) ≡ reserve_reads tid rs (ids t)
  unfolding reserve_read_versions reserve_reads
  ids-reserve_read_versions tid [] t = refl
  ids-reserve_read_versions tid (r ∷ rs) t =
      ids-reserve_read_versions tid rs (reserve_version hash tid (read_key r) t)
      ∙ ap (reserve_reads tid rs) (ids-reserve_version tid (read_key r) t)

  ids-reserve_write_versions :
      (tid : ℕ) (ws : List KvWrite) (t : Registers)
      → ids (reserve_write_versions hash tid ws t) ≡ reserve_writes tid ws (ids t)
  unfolding reserve_write_versions reserve_writes
  ids-reserve_write_versions tid [] t = refl
  ids-reserve_write_versions tid (w ∷ ws) t =
      ids-reserve_write_versions tid ws (reserve_version hash tid (write_key w) t)
      ∙ ap (reserve_writes tid ws) (ids-reserve_version tid (write_key w) t)

  table_of-reserve_mvcc :
      (e tid : ℕ) (s : KvRwSet) (m : MvccReserveTable)
      → table_of e (reserve_mvcc hash s tid m) ≡ reserve_rw_set s tid (table_of e m)
  unfolding reserve_mvcc reserve_rw_set
  table_of-reserve_mvcc e tid s m =
      ap₂ (λ r w. record { epoch = e; read_table = r; write_table = w })
        (ids-reserve_read_versions tid s.reads m.read_table)
        (ids-reserve_write_versions tid s.writes m.write_table)

  pub table_of-reserve_batch :
      (e : ℕ) (b : Batch) (m : MvccReserveTable)
      → table_of e (reserve_batch b m) ≡ reserve_all b (table_of e m)
  unfolding reserve_batch reserve_all
  table_of-reserve_batch e [] m = refl
  table_of-reserve_batch e ((tid, s) ∷ b) m =
      table_of-reserve_batch e b (reserve_mvcc hash s tid m)
      ∙ ap (reserve_all b) (table_of-reserve_mvcc e tid s m)

  -- A register that stands in a table.
  abbrev pub HasRegister : Registers → Key → Type 0
  HasRegister t k = (x : ℕ) × (get_register hash k t ≡ some x)

  pub find_earlier_write_version-found :
      (tid : ℕ) (t : Registers) (ws : List KvWrite)
      → All (λ w. HasRegister t (write_key w)) ws
      → find_earlier_write_version hash tid t ws ≡ some (find_earlier_write tid (ids t) ws)
  unfolding find_earlier_write_version find_earlier_write
  find_earlier_write_version-found tid t [] h = refl
  find_earlier_write_version-found tid t (w ∷ ws) h =
      let rest = find_earlier_write_version-found tid t ws h.1 in ground (arith, h.0.1)

  pub find_earlier_read_version-found :
      (tid : ℕ) (t : Registers) (rs : List KvRead)
      → All (λ r. HasRegister t (read_key r)) rs
      → find_earlier_read_version hash tid t rs ≡ some (find_earlier_read tid (ids t) rs)
  unfolding find_earlier_read_version find_earlier_read
  find_earlier_read_version-found tid t [] h = refl
  find_earlier_read_version-found tid t (r ∷ rs) h =
      let rest = find_earlier_read_version-found tid t rs h.1 in ground (arith, h.0.1)

  -- Every register that the analysis of a set loads has been made.
  pub record AllMade (s : KvRwSet) (m : MvccReserveTable) : Type 0 where
    pub written : All (λ w. HasRegister m.write_table (write_key w)) s.writes
    pub read : All (λ w. HasRegister m.read_table (write_key w)) s.writes
    pub read_written : All (λ r. HasRegister m.write_table (read_key r)) s.reads

  pub mvcc_analysis-made :
      (e tid : ℕ) (s : KvRwSet) (m : MvccReserveTable)
      → AllMade s m
      → mvcc_analysis hash s tid m ≡ some (dependency_analysis s tid (table_of e m))
  unfolding mvcc_analysis dependency_analysis
  mvcc_analysis-made e tid s m h =
      rw (find_earlier_write_version-found tid m.write_table s.writes h.written) (
        rw (find_earlier_write_version-found tid m.read_table s.writes h.read)
          (rw (find_earlier_read_version-found tid m.write_table s.reads h.read_written) refl))
