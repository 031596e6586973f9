-- ===== src/ReserveTable/Mvcc.antt =====
-- The reserve table over an `MVCCHashMap`,
-- src/block_server/reserve_table/mock/mock_mvcc_reserve_table.cpp: the version of a register is the
-- name of its table. The source marks it as one that has a bug.
pub mod Registers
pub mod Agrees
pub mod Made
pub mod Batches
use neu_chain.Prelude.{
  ℕ, Bool, true, false, Option, none, some, List, [], ◌∷◌, String, str_eq, if◌then◌else◌, Key,
}
use neu_chain.RwSet.{KvRead, KvWrite, KvRwSet, read_key, write_key}
use neu_chain.ReserveTable.{reserve_register, is_earlier, TransactionDependency}
use neu_chain.MvccHashMap.{MvccHashMap, insert_key_version_holder, get_key_version, set_key_version}

-- A table of registers: to each key, and the table in which it is, an id.
abbrev pub Registers : Type 0
Registers = MvccHashMap String ℕ

pub record MvccReserveTable : Type 0 where
  pub read_table : Registers
  pub write_table : Registers

abbrev pub no_registers : Registers
no_registers i = []

-- `MockMVCCReserveTable(epoch)`.
abbrev pub new_mvcc_table : MvccReserveTable
new_mvcc_table = record { read_table = no_registers; write_table = no_registers }

abbrev pub parts : ℕ
parts = 997

infixl 5 ◌>>=◌
abbrev pub ◌>>=◌ : {A B : Type 0} → Option A → (A → Option B) → Option B
m >>= f = elim m [ none ↦ none | some a ↦ f a ]

module _ (hash : String → ℕ) where
  -- The register of a key. A null pointer is none.
  unfoldable pub get_register : Key → Registers → Option ℕ
  get_register k t = get_key_version str_eq hash parts k.1 k.0 t

  unfoldable pub insert_register : Key → Registers → Registers
  insert_register k t = insert_key_version_holder str_eq hash parts 0 k.1 k.0 t

  unfoldable pub set_register : Key → ℕ → Registers → Registers
  set_register k x t = set_key_version str_eq hash parts k.1 k.0 x t

  -- A register is made at the first reservation of its key.
  unfoldable pub reserve_version : ℕ → Key → Registers → Registers
  reserve_version tid k t = elim (get_register k t) [
    | none ↦ set_register k (reserve_register tid 0) (insert_register k t)
    | some old ↦ set_register k (reserve_register tid old) t
  ]

  unfoldable pub reserve_read_versions : ℕ → List KvRead → Registers → Registers
  reserve_read_versions tid [] t = t
  reserve_read_versions tid (r ∷ rs) t =
      reserve_read_versions tid rs (reserve_version tid (read_key r) t)

  unfoldable pub reserve_write_versions : ℕ → List KvWrite → Registers → Registers
  reserve_write_versions tid [] t = t
  reserve_write_versions tid (w ∷ ws) t =
      reserve_write_versions tid ws (reserve_version tid (write_key w) t)

  unfoldable pub reserve_mvcc : KvRwSet → ℕ → MvccReserveTable → MvccReserveTable
  unfolding reserve_read_versions reserve_write_versions
  reserve_mvcc s tid t = record {
    read_table = reserve_read_versions tid s.reads t.read_table;
    write_table = reserve_write_versions tid s.writes t.write_table;
  }

  -- The loops of the analysis: they load from the register without a test for a null pointer.
  unfoldable pub find_earlier_write_version : ℕ → Registers → List KvWrite → Option Bool
  find_earlier_write_version tid t [] = some false
  find_earlier_write_version tid t (w ∷ ws) =
      let rest = find_earlier_write_version tid t ws in
      do old ← get_register (write_key w) t; if is_earlier tid old then some true else rest

  unfoldable pub find_earlier_read_version : ℕ → Registers → List KvRead → Option Bool
  find_earlier_read_version tid t [] = some false
  find_earlier_read_version tid t (r ∷ rs) =
      let rest = find_earlier_read_version tid t rs in
      do old ← get_register (read_key r) t; if is_earlier tid old then some true else rest

  unfoldable pub mvcc_analysis : KvRwSet → ℕ → MvccReserveTable → Option TransactionDependency
  unfolding find_earlier_write_version find_earlier_read_version
  mvcc_analysis s tid t = do
    waw ← find_earlier_write_version tid t.write_table s.writes
    war ← find_earlier_write_version tid t.read_table s.writes
    raw ← find_earlier_read_version tid t.write_table s.reads
    some (record { waw = waw; war = war; raw = raw })
