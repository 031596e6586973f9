-- ===== src/ReserveTable/Mvcc/Batches.antt =====
-- Which registers a batch of reservations makes: those of the keys that it claims. So the analysis
-- gives the flags of the plain table where every key that a transaction writes is also read, and
-- every key that it reads is also written, and stops the process at a write that nobody reads.
use mathlib.Core.Path.{ap₂}
use neu_chain.HashMap.Refines.{value_or}
use neu_chain.Prelude.{
  ℕ, ◌≡◌, refl, sym, ap, ◌∙◌, subst, inl, inr, none, some, List, [], ◌∷◌, map, String, Key, In, All,
  All-map_lem, fun_ext, Option-cases,
}
use neu_chain.RwSet.{KvWrite, KvRwSet, read_key, write_key, read_keys, write_keys}
use neu_chain.ReserveTable.{new_reserve_table, dependency_analysis}
use neu_chain.ReserveTable.Min.{Batch, reserve_all}
use neu_chain.ReserveTable.Exact.{Claims}
use neu_chain.ReserveTable.Mvcc.{
  Registers, MvccReserveTable, no_registers, new_mvcc_table, get_register, reserve_mvcc,
  find_earlier_write_version, mvcc_analysis,
}
use neu_chain.ReserveTable.Mvcc.Agrees.{
  HasRegister, table_of, reserve_batch, table_of-reserve_batch, mvcc_analysis-made,
}
use neu_chain.ReserveTable.Mvcc.Made.{
  reserve_versions, reserve_read_versions-keys, reserve_write_versions-keys, made-kept,
  made-claimed, never_made,
}

-- Some entry of the batch claims the key.
abbrev pub Claimed : (KvRwSet → List Key) → Batch → Key → Type 0
Claimed keys b k = (e : ℕ × KvRwSet) × In e b × Claims keys k e

module _ (hash : String → ℕ) where
  -- One of the two tables, with the keys of a set that are claimed in it.
  record Side : Type 0 where
    pub keys : KvRwSet → List Key
    pub table : MvccReserveTable → Registers
    pub reserved :
        (s : KvRwSet) (tid : ℕ) (m : MvccReserveTable)
        → table (reserve_mvcc hash s tid m) ≡ reserve_versions hash tid (keys s) (table m)
    pub begins : (k : Key) → get_register hash k (table new_mvcc_table) ≡ none

  none_yet : (k : Key) → get_register hash k no_registers ≡ none
  unfolding get_register neu_chain.MvccHashMap.get_key_version neu_chain.HashMap.find
  none_yet k = refl

  read_reserved :
      (s : KvRwSet) (tid : ℕ) (m : MvccReserveTable)
      → (reserve_mvcc hash s tid m).read_table
        ≡ reserve_versions hash tid (read_keys s) m.read_table
  unfolding reserve_mvcc
  read_reserved s tid m = reserve_read_versions-keys hash tid s.reads m.read_table

  write_reserved :
      (s : KvRwSet) (tid : ℕ) (m : MvccReserveTable)
      → (reserve_mvcc hash s tid m).write_table
        ≡ reserve_versions hash tid (write_keys s) m.write_table
  unfolding reserve_mvcc
  write_reserved s tid m = reserve_write_versions-keys hash tid s.writes m.write_table

  abbrev read_side : Side
  read_side = record {
    keys = read_keys;
    table = λ m. m.read_table;
    reserved = read_reserved;
    begins = none_yet;
  }

  abbrev write_side : Side
  write_side = record {
    keys = write_keys;
    table = λ m. m.write_table;
    reserved = write_reserved;
    begins = none_yet;
  }

  module _ (side : Side) where
    batch_kept :
        (k : Key) (b : Batch) (m : MvccReserveTable)
        → HasRegister hash (side.table m) k
        → HasRegister hash (side.table (reserve_batch hash b m)) k
    unfolding reserve_batch
    batch_kept k [] m h = h
    batch_kept k ((tid, s) ∷ b) m h = batch_kept k b (reserve_mvcc hash s tid m) (
        subst (λ t. HasRegister hash t k) (sym (side.reserved s tid m))
          (made-kept hash k tid (side.keys s) (side.table m) h))

    batch_made :
        (k : Key) (b : Batch) (m : MvccReserveTable)
        → Claimed side.keys b k
        → HasRegister hash (side.table (reserve_batch hash b m)) k
    unfolding reserve_batch
    batch_made k [] m (x, at, c) = absurd at
    batch_made k ((tid, s) ∷ b) m (x, inr at, c) =
        batch_made k b (reserve_mvcc hash s tid m) (x, at, c)
    batch_made k ((tid, s) ∷ b) m (x, inl e, c) = batch_kept k b (reserve_mvcc hash s tid m) (
        subst (λ t. HasRegister hash t k) (sym (side.reserved s tid m))
          (made-claimed hash k tid (side.keys s) (side.table m) (subst (Claims side.keys k) e c)))

    batch_never :
        (k : Key) (b : Batch) (m : MvccReserveTable)
        → get_register hash k (side.table m) ≡ none
        → ¬ Claimed side.keys b k
        → get_register hash k (side.table (reserve_batch hash b m)) ≡ none
    unfolding reserve_batch
    batch_never k [] m h n = h
    batch_never k ((tid, s) ∷ b) m h n =
        batch_never k b (reserve_mvcc hash s tid m)
          (ap (get_register hash k) (side.reserved s tid m)
            ∙ never_made hash k tid (side.keys s) (side.table m) h (λ i. n ((tid, s), inl refl, i)))
          (λ c. n (c.0, inr c.1, c.2))

  -- For a transaction of a batch, the analysis over the table with versions, made anew for the
  -- epoch, gives what the plain one gives, if a transaction of the batch reads each key that it
  -- writes, and one writes each key that it reads.
  pub mvcc_analysis-Agrees :
      (b : Batch) (e tid : ℕ) (s : KvRwSet)
      → In (tid, s) b
      → All (λ w. Claimed read_keys b (write_key w)) s.writes
      → All (λ r. Claimed write_keys b (read_key r)) s.reads
      → mvcc_analysis hash s tid (reserve_batch hash b new_mvcc_table)
        ≡ some (dependency_analysis s tid (reserve_all b (new_reserve_table e)))
  mvcc_analysis-Agrees b e tid s at read written =
      mvcc_analysis-made hash e tid s (reserve_batch hash b new_mvcc_table) (record {
        written = own s.writes (λ k i. ((tid, s), at, i));
        read =
            All-map_lem _ _ s.writes (λ w c. batch_made read_side (write_key w) b new_mvcc_table c)
              read;
        read_written =
            All-map_lem _ _ s.reads (λ r c. batch_made write_side (read_key r) b new_mvcc_table c)
              written;
      })
      ∙ ap (λ t. some (dependency_analysis s tid t))
          (table_of-reserve_batch hash e b new_mvcc_table ∙ ap (reserve_all b) fresh)
    where
      own :
          (ws : List KvWrite)
          → ((k : Key) → In k (map write_key ws) → Claimed write_keys b k)
          → All
              (λ w.
                HasRegister hash (reserve_batch hash b new_mvcc_table).write_table (write_key w))
              ws
      own [] f = tt
      own (w ∷ ws) f = (
        batch_made write_side (write_key w) b new_mvcc_table (f (write_key w) (inl refl)),
        own ws (λ k i. f k (inr i)),
      )

      fresh : table_of hash e new_mvcc_table ≡ new_reserve_table e
      fresh =
          ap₂ (λ r w. record { epoch = e; read_table = r; write_table = w })
            (fun_ext (λ k. ap (value_or 0) (none_yet k)))
            (fun_ext (λ k. ap (value_or 0) (none_yet k)))

  -- A blind write stops the process: if no transaction of the batch reads the key that a
  -- transaction writes first, then its analysis loads from a null pointer, and has no result.
  pub mvcc_analysis-dangling :
      (b : Batch) (tid : ℕ) (s : KvRwSet) (w : KvWrite) (ws : List KvWrite)
      → s.writes ≡ w ∷ ws
      → ¬ Claimed read_keys b (write_key w)
      → mvcc_analysis hash s tid (reserve_batch hash b new_mvcc_table) ≡ none
  unfolding mvcc_analysis
  mvcc_analysis-dangling b tid s w ws e n =
      let m = reserve_batch hash b new_mvcc_table in
      let stops =
        subst (λ l. find_earlier_write_version hash tid m.read_table l ≡ none) (sym e)
          (loads _
            (batch_never read_side (write_key w) b new_mvcc_table (none_yet (write_key w)) n)) in
      elim (Option-cases (find_earlier_write_version hash tid m.write_table s.writes)) [
        | inl f ↦ rw f refl
        | inr (x, f) ↦ rw f (rw stops refl)
      ]
    where
      loads :
          (t : Registers)
          → get_register hash (write_key w) t ≡ none
          → find_earlier_write_version hash tid t (w ∷ ws) ≡ none
      loads t h = rw h refl
