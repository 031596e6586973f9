-- ===== src/ReserveTable.antt =====
-- The reserve table of an epoch (src/block_server/reserve_table/mock/mock_reserve_table.cpp):
-- for each key the smallest id of a transaction that reads it, and of one that writes it.
-- A hash map of hash maps gives a zero for a key that it has not seen, so a table is a function.
mod Register
pub mod Min
pub mod Exact
pub mod Exchange
pub mod Mvcc
unfoldable pub use Register.{reserve_register, earlier}
pub use Register.{
  keeps, reserve_register-eq-earlier, earlier_comm, earlier_assoc, earlier_zero, zero_earlier,
  earlier-cases, earlier-le,
}
use neu_chain.Prelude.{
  ℕ, [], ◌∷◌, List, Bool, true, false, ◌&&◌, not, ltb, ◌==◌, if◌then◌else◌, Option, none, some, Key,
  update,
}
use neu_chain.RwSet.{KvRead, KvWrite, KvRwSet, read_key, write_key}

pub record ReserveTable : Type 0 where
  pub epoch : ℕ
  pub read_table : Key → ℕ
  pub write_table : Key → ℕ

-- `MockReserveTable(epoch)`: every register is zero.
abbrev pub new_reserve_table : ℕ → ReserveTable
new_reserve_table e = record { epoch = e; read_table = λ k. 0; write_table = λ k. 0 }

abbrev pub reserve_key : ℕ → Key → (Key → ℕ) → Key → ℕ
reserve_key tid k t = update t k (reserve_register tid (t k))

unfoldable pub reserve_reads : ℕ → List KvRead → (Key → ℕ) → Key → ℕ
reserve_reads tid [] t = t
reserve_reads tid (r ∷ rs) t = reserve_reads tid rs (reserve_key tid (read_key r) t)

unfoldable pub reserve_writes : ℕ → List KvWrite → (Key → ℕ) → Key → ℕ
reserve_writes tid [] t = t
reserve_writes tid (w ∷ ws) t = reserve_writes tid ws (reserve_key tid (write_key w) t)

unfoldable pub reserve_rw_set : KvRwSet → ℕ → ReserveTable → ReserveTable
unfolding reserve_reads reserve_writes
reserve_rw_set s tid t = record t {
  read_table = reserve_reads tid s.reads t.read_table;
  write_table = reserve_writes tid s.writes t.write_table;
}

pub record TransactionDependency : Type 0 where
  pub waw : Bool
  pub war : Bool
  pub raw : Bool

-- The test that all three loops of the analysis make of a register.
abbrev pub is_earlier : ℕ → ℕ → Bool
is_earlier tid old = ltb old tid && not (old == 0)

-- `for (write : writes) if (...) { flag = true; break; }`, over either table.
unfoldable pub find_earlier_write : ℕ → (Key → ℕ) → List KvWrite → Bool
find_earlier_write tid t [] = false
find_earlier_write tid t (w ∷ ws) =
    if is_earlier tid (t (write_key w)) then true else find_earlier_write tid t ws

unfoldable pub find_earlier_read : ℕ → (Key → ℕ) → List KvRead → Bool
find_earlier_read tid t [] = false
find_earlier_read tid t (r ∷ rs) =
    if is_earlier tid (t (read_key r)) then true else find_earlier_read tid t rs

unfoldable pub dependency_analysis : KvRwSet → ℕ → ReserveTable → TransactionDependency
unfolding find_earlier_write find_earlier_read
dependency_analysis s tid t = record {
  waw = find_earlier_write tid t.write_table s.writes;
  war = find_earlier_write tid t.read_table s.writes;
  raw = find_earlier_read tid t.write_table s.reads;
}

-- `ReserveTableProvider::getHashMapReserveTable`: the table of the epoch, made anew at the first
-- call for an epoch. (The test is made twice, around a lock.) `getReserveTable` is this function,
-- as include/common/compile_config.h chooses it.
abbrev pub Provider : Type 0
Provider = Option ReserveTable

unfoldable pub get_reserve_table : ℕ → Provider → ReserveTable
get_reserve_table e none = new_reserve_table e
get_reserve_table e (some t) = if e == t.epoch then t else new_reserve_table e
